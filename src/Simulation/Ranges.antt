-- ===== src/Simulation/Ranges.antt =====
-- The time ranges that a simulation reads and merges.
use native.Mathlib.Nat.{mod-eq_of_lt, div-div-eq-div-mul}
use transeptor_bundler.Prelude.{
  ℕ, ◌+◌, ◌*◌, ◌^◌, ◌<◌, ◌≤◌, ◌/◌, ◌%◌, ◌≡◌, ◌↔◌, refl, sym, ◌∙◌, ap, eqb, arith, if◌then◌else◌,
}
use transeptor_bundler.Prelude.Words.{div-packed, mod-packed}
use transeptor_bundler.Simulation.Data.{
  ValidationData, merge_validation_data, parse_validation_data, max_uint_48,
}

-- The time lies in the range of the data.
abbrev pub Within : ℕ → ValidationData → Type 0
Within time data_ = (data_.valid_after ≤ time) × (time ≤ data_.valid_until)

-- A time lies in the merged range exactly if it lies in the range of the account and in that of the
-- paymaster, and the merged signature fails exactly if one of the two does.
pub merge_validation_data_iff :
    (account paymaster : ValidationData) (time : ℕ)
    → (Within time (merge_validation_data account paymaster)
        ↔ (Within time account × Within time paymaster))
      × (((merge_validation_data account paymaster).aggregator ≡ 0)
          ↔ ((account.aggregator ≡ 0) × (paymaster.aggregator ≡ 0)))
unfolding merge_validation_data
merge_validation_data_iff account paymaster time = (
  (
    (λ (a, b). ((omega arith, omega arith), (omega arith, omega arith))),
    λ ((a, b), (c, d)). (omega arith, omega arith),
  ),
  ((λ h. ground arith), λ h. ground arith),
)

-- The word that a contract returns: six bytes from when, six until when, and an aggregator.
abbrev pub packed : ℕ → ℕ → ℕ → ℕ
packed after until aggregator = (after * 2 ^ 48 + until) * 2 ^ 160 + aggregator

-- The three parts of a word are read back as they were packed, where no end stands for the last time
-- that six bytes can say.
pub parse_validation_data-packed :
    (after until aggregator : ℕ)
    → after < 2 ^ 48
    → until < 2 ^ 48
    → aggregator < 2 ^ 160
    → parse_validation_data (packed after until aggregator) ≡ record {
      aggregator = aggregator;
      valid_after = after;
      valid_until = if eqb until 0 then max_uint_48 else until;
    }
unfolding parse_validation_data
parse_validation_data-packed after until aggregator a u g =
    let shifted = div-packed (after * 2 ^ 48 + until) aggregator (2 ^ 160) g in
    let end = ap (λ n. n % 2 ^ 48) shifted ∙ mod-packed after until (2 ^ 48) u in
    let begin =
      ap (λ n. n % 2 ^ 48)
        (sym (div-div-eq-div-mul (packed after until aggregator) (2 ^ 160) (2 ^ 48))
          ∙ ap (λ n. n / 2 ^ 48) shifted
          ∙ div-packed after until (2 ^ 48) u)
      ∙ mod-eq_of_lt a in
    rw (mod-packed (after * 2 ^ 48 + until) aggregator (2 ^ 160) g, end, begin) refl
