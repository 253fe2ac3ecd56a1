-- ===== src/Prelude/Words.antt =====
-- Two numbers in one word: the upper part and the lower part of a sum.
use native.Mathlib.Nat.{mod-eq_of_lt, div-eq_of_lt, mul-add-div_right, mul-add-mod_self_right}
use Prim.Native.Nat.{ℕ, ◌+◌, ◌*◌, ◌<◌, ◌/◌, ◌%◌}
use mathlib.Core.Path.{◌≡◌, ap, ◌∙◌}
use native.Mathlib.Omega.{arith}

pub div-packed : (high low m : ℕ) → low < m → (high * m + low) / m ≡ high
div-packed high low m h =
    mul-add-div_right (omega arith) high low ∙ ap (λ q. high + q) (div-eq_of_lt h) ∙ omega arith

pub mod-packed : (high low m : ℕ) → low < m → (high * m + low) % m ≡ low
mod-packed high low m h = mul-add-mod_self_right high m low ∙ mod-eq_of_lt h
