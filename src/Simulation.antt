-- ===== src/Simulation.antt =====
-- sim/sim.helper.ts and sim/sim.ts: what a simulation of an operation is read to say.
pub mod Data
pub mod Calls
pub mod Ranges
pub mod Traced
pub mod Running
pub mod Full
