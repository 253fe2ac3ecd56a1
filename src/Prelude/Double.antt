-- ===== src/Prelude/Double.antt =====
-- JavaScript's `Number` on the numbers that the program puts there: a natural number below 2 ^ 1024
-- as the nearest double, ties to even, and the product with the literal 1.1, whose double is
-- 4953959590107546 / 2 ^ 52. A rounded value is a natural number; a product with 1.1 is kept
-- multiplied by 2 ^ 52, since rounding to 53 significant bits does not depend on the exponent.
use Prim.Native.Nat.{ℕ, zero, suc, ◌+◌, ◌*◌, ◌/◌, ◌%◌, ◌^◌, ◌≤◌, ◌<◌}
use native.Mathlib.Nat.{mod-lt, div-add-mod}
use mathlib.Core.Path.{◌≡◌, refl}
use mathlib.Core.Logic.{◌⊎◌, inl}
use mathlib.Core.Bool.{Bool, true}
use native.Mathlib.Omega.{arith}
use native.Mathlib.Decide.{dec_lt}
use transeptor_bundler.Prelude.Tests.{ltb, leb, leb→le, eqb, if◌then◌else◌}

-- The unit in the last place: the power of two that leaves at most 53 bits. The first argument is fuel.
ulp : ℕ → ℕ → ℕ
ulp zero n = 1
ulp (suc f) n = let rest = 2 * ulp f (n / 2) in if ltb n 0x20_0000_0000_0000 then 1 else rest

abbrev round_half_even : ℕ → ℕ → ℕ → ℕ
round_half_even q r u =
    if ltb (2 * r) u
    then q * u
    else if ltb u (2 * r)
    then (q + 1) * u
    else if eqb (q % 2) 0
    then q * u
    else (q + 1) * u

unfoldable pub round : ℕ → ℕ
unfolding ulp
round n = let u = ulp n n in round_half_even (n / u) (n % u) u

-- x * 1.1, times 2 ^ 52
unfoldable pub times_1_1 : ℕ → ℕ
times_1_1 x = round (x * 4953959590107546)

-- a >= b * 1.1
unfoldable pub at_least_times_1_1 : ℕ → ℕ → Bool
at_least_times_1_1 a b = leb (times_1_1 (round b)) (round a * 2 ^ 52)

-- The fuel is enough: what is left has at most 53 bits.
ulp_enough : (f n : ℕ) → n ≤ f → n < 0x20_0000_0000_0000 * ulp f n
unfolding ulp
ulp_enough zero n h = omega arith
ulp_enough (suc f) n h = ground (arith, ulp_enough f (n / 2))

ulp_pos : (f n : ℕ) → 0 < ulp f n
unfolding ulp
ulp_pos zero n = omega arith
ulp_pos (suc f) n = ground (arith, ulp_pos f (n / 2))

-- No unit is larger than it must be.
ulp_small : (f n : ℕ) → (ulp f n ≡ 1) ⊎ (0x20_0000_0000_0000 * ulp f n ≤ 2 * n)
unfolding ulp
ulp_small zero n = inl refl
ulp_small (suc f) n = ground (arith, ulp_small f (n / 2))

-- Rounding moves a number by at most half a unit.
round_half_even-near :
    (q r u : ℕ)
    → r < u
    → (2 * (q * u + r) ≤ 2 * round_half_even q r u + u)
      × (2 * round_half_even q r u ≤ 2 * (q * u + r) + u)
round_half_even-near q r u h = ground arith

round-near : (n : ℕ) → (2 * n ≤ 2 * round n + ulp n n) × (2 * round n ≤ 2 * n + ulp n n)
unfolding round
round-near n = omega (
  arith,
  round_half_even-near (n / ulp n n) (n % ulp n n) (ulp n n) (mod-lt n (ulp_pos n n)),
  div-add-mod n (ulp n n),
)

-- The relative error is at most 2 ^ -53.
pub round-error :
    (n : ℕ)
    → (0x1F_FFFF_FFFF_FFFF * n ≤ 0x20_0000_0000_0000 * round n)
      × (0x20_0000_0000_0000 * round n ≤ 0x20_0000_0000_0001 * n)
round-error n = omega (arith, round-near n, ulp_small n n)

ulp_exact : (f n : ℕ) → n < 0x20_0000_0000_0000 → ulp f n ≡ 1
unfolding ulp
ulp_exact zero n h = refl
ulp_exact (suc f) n h = ground arith

-- A number of at most 53 bits is exact.
pub round_exact : (n : ℕ) → n < 0x20_0000_0000_0000 → round n ≡ n
round_exact n h = omega (arith, round-near n, ulp_exact n n h)

-- Over doubles, `a >= b * 1.1` is the exact comparison for values below 2 ^ 48, up to one unit of
-- a: it implies 10 a ≥ 11 b, and 10 a > 11 b implies it.
pub at_least_times_1_1_sound :
    (a b : ℕ) → b < 0x1_0000_0000_0000 → at_least_times_1_1 a b ≡ true → 11 * b ≤ 10 * a
unfolding at_least_times_1_1 times_1_1
at_least_times_1_1_sound a b small h = elim (dec_lt a 0x20_0000_0000_0000) [
  | yes exact ↦
      let low = (round-error (b * 4953959590107546)).0 in
      let reached : round (b * 4953959590107546) ≤ a * 2 ^ 52 =
        leb→le _ _ (rw (round_exact b (omega arith), round_exact a exact) at h) in
      omega arith
  | no huge ↦ omega arith
]

pub at_least_times_1_1_complete :
    (a b : ℕ) → a < 0x1_0000_0000_0000 → 11 * b < 10 * a → at_least_times_1_1 a b ≡ true
unfolding at_least_times_1_1 times_1_1
at_least_times_1_1_complete a b small h =
    let high = (round-error (b * 4953959590107546)).1 in
    let reached : round (b * 4953959590107546) ≤ a * 2 ^ 52 = omega arith in
    rw (round_exact b (omega arith), round_exact a (omega arith)) (ground arith)
