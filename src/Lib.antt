-- ===== src/Lib.antt =====
-- Transeptor is a bundler for ERC-4337 user operations: it takes operations from clients, checks
-- them, keeps them in a mempool, and sends them on in bundles. This library models the parts of it
-- that decide: the store and the components that read and change it.
--
-- The parts and their files (paths from the repository's root):
--   State: src/state/state.ts, the one store of the node. `get_state` and `update_state` check a
--     capability (the verifier is a parameter), read the picked keys and, in one step, write what a
--     callback returns for exactly these keys.
--   Reputation: src/reputation/reputation-manager.ts, which counts for every entity how often the
--     bundler saw and included it, and derives a status (`get_status`), limits and checks. Checks holds
--     the checks that throw, Cron the hourly decay; Status and Updates hold laws.
--   Deposit: src/deposit/deposit-manager.ts, the deposit of a paymaster against the pool.
--   Mempool: src/mempool/mempool-helper.ts, the checks and updates of the pool. Admission is
--     `checkReputation` and `replaceOrAddUserOpChecks`; Slots, Entries, Roles and Fees hold laws.
--   Mempool/Manager: src/mempool/mempool-manager.ts, one function per operation from the whole store to
--     the result and the new store. Adding, Pending, Removing, Banning and Marking hold laws of one operation each, and
--     Runs sequences of operations.
--   Bundle: src/bundle/builder/builder.helpers.ts, the tests that let an operation into a bundle; Budgets
--     holds laws. Bundle/Building: the loop of src/bundle/builder/bundle-builder.ts over the entries that
--     the pool hands out; Invariants, Fates, Splitting and Conflicts hold laws.
--     Bundle/Creating: `createBundle` of the same file and the hook that puts back or removes what is not in
--     the bundle; Returning holds laws.
--     Bundle/Processing: src/bundle/processor and src/bundle/bundle.helper.ts, what follows when a bundle is
--     refused; Crash holds laws.
--     Bundle/Manager: `doAttemptBundle` of src/bundle/bundle-manager.ts, from the events since the last attempt
--     to the bundle that is sent; Soundness holds laws. Bundle/Manager/Automation: the mode and its timer.
--   Event: src/event/event-manager.ts. Effects holds laws of `handleEvent`, Logs laws of `filterLogs`.
--   Erc7562: src/sim/erc7562-parser.ts, the rules on what a validation may do, over the trace of its calls. Opcodes
--     is src/sim/evm-opcodes.ts and src/sim/erc7562-banned-opcodes.ts; Rules and Access hold one function for each
--     rule, Rules/Meaning and Access/Meaning the rules as predicates, Access/Noting what the storage map then holds; Runner is the loop over the calls, its
--     children Walk, Rulebook and Safety hold laws.
--   Validation: src/validation/validation.helper.ts and `validateUserOp` of src/validation/validation-service.ts;
--     Accepted holds laws. Validation/Input: `validateInputParameters` and `requireAddressAndFields`;
--     Fields and Meaning hold laws.
--   Simulation: src/sim/sim.helper.ts, what a simulation is read to say: Data the time ranges and a
--     returned result, Calls the calls of a trace. Running is src/sim/sim.ts, over the
--     answers of the node. Ranges, Traced and Full hold laws.
--   EthApi: `sendUserOperation` of src/apis/eth/eth-api.ts, from the input of a client over the validation into the
--     pool, with the events that it logs; Sending and Refusals hold laws. EthApi/Queries: the estimate of gas and
--     `getUserOperationByHash`, with src/apis/eth/eth-api.helpers.ts; Found holds laws.
--   Ocaps: src/ocaps, the capabilities that open the store, how they are issued and verified; Issued holds laws.
--   Audit: src/logger/audit/audit-queue.ts, the buffer between producers and the worker, as a step relation. Ring,
--     Invariant, Outcomes, Order and Race hold laws.
--   Outcome and Errors: src/monad/either.ts and the errors that are thrown or returned.
--   Types and UserOps: src/types and src/utils/user-op.utils.ts; UserOps/Packing is the form of an operation that the
--     contract takes, its Bytes and Laws hold lemmas and laws.
--   Prelude: the language's numbers, texts, arrays, objects and doubles, as far as the code uses them.
--   Examples: runs on concrete data.
--   Event/Soundness, Bundle/Creating/Soundness and Bundle/Processing/Soundness: the same parts and the invariant of
--     the pool.
--
-- The mempool manager calls the deposit manager, then its own helpers, which call the reputation
-- manager for the status and the stake of every entity; all of them share the store. The bundle builder
-- takes the entries that the pool hands out and asks for the status of their entities; the bundle manager
-- runs the event manager, the builder and the processor one after the other; an event that
-- an operation was executed takes its entry out of the pool. The validation of an operation simulates it,
-- has the parser check the trace, and tests the result against the clock.
--
-- How the code is read: the store is passed explicitly. An operation is one step: between the
-- `await`s of two operations nothing else runs in the model. A thrown `RpcError` and a returned `Either`
-- are different outcomes (`Result` and `Either`). Objects with text keys are association lists in the
-- order of insertion. `bigint` and the counters are natural numbers, a deposit that may fall below zero
-- is an integer. Quotients of counters are rounded down exactly; a double does the same while the
-- counters are below 2 ^ 45. The result of a validation has its gas, addresses have at most 32 bytes and the
-- slots of a trace are hexadecimal numbers; what the code throws otherwise is not modelled. The comparison of fees with the factor 1.1 is modelled on doubles, with
-- its rounding. Texts are ASCII as far as `toLowerCase` goes. Loops are structural, with two
-- exceptions: the unit of a double is found on fuel, the number itself, which is enough since every round
-- halves it, and the parser's stack of calls is emptied on fuel, the number of calls of the trace, which is
-- enough since every call is pushed once. In the audit queue what runs under the lock is one step.
--
-- Parameters: the capability verifier, `balanceOf` and `getDepositInfo` of the contracts, the second
-- validation of an operation, the recovery of a signer from an authorization, and the topic of the
-- contract's BeforeExecution event; the reading and writing of bytes in hexadecimal, the hash of a
-- text and its padding, the names of methods by their signature, the coding of calls and results by
-- the interfaces of the contracts, the calculation of the gas, and what the node answers to a
-- simulation and to the script that hashes code. How an attempt to send a bundle ends is an argument,
-- and so is what `parseFailedOpRevert` and `checkFatal` read of an error of the node.
--
-- Not modelled: metrics and network I/O, the contracts, the texts of error messages, the calls of the
-- node that run a simulation, the gas calculation, the writer of the audit log, the start-up that
-- hands out the capabilities, and the RPC layer.
pub mod Prelude
pub mod Types
pub mod Errors
pub mod Outcome
pub mod State
pub mod Reputation
pub mod UserOps
pub mod Deposit
pub mod Mempool
pub mod Event
pub mod Erc7562
pub mod Audit
pub mod Bundle
pub mod Validation
pub mod Simulation
pub mod EthApi
pub mod Ocaps
pub mod Examples
