-- ===== src/Bundle/Budgets.antt =====
-- The deposits of the paymasters and the counts of the entities of a bundle.
use transeptor_bundler.Prelude.{
  ℕ, ◌+◌, String, ◌≡◌, ◌≢◌, Bool, true, false, ◌==◌, eq_iff, Option, none, some, arith, inl, inr,
  Bool-cases,
}
use transeptor_bundler.Prelude.Int.{ℤ, pos, negsuc, ltb_ℤ, ◌-ℤ◌}
use transeptor_bundler.Prelude.Dict.{Dict, get, put, get-put}
use transeptor_bundler.Types.{UserOperation, ValidateUserOpResult}
use transeptor_bundler.State.{or_else}
use transeptor_bundler.Bundle.{
  increment_count, paymaster_has_insufficient_deposit, falls_short, charge, charged,
  update_entity_stake_count_and_deposit,
}

-- No deposit is below zero.
abbrev is_covered : Option ℤ → Bool
is_covered none = true
is_covered (some (pos n)) = true
is_covered (some (negsuc n)) = false

abbrev pub Covered : Dict ℤ → Type 0
Covered deposits = (p : String) → is_covered (get p deposits) ≡ true

pub put-Covered :
    (paymaster : String) (n : ℕ) (deposits : Dict ℤ)
    → Covered deposits
    → Covered (put paymaster (pos n) deposits)
put-Covered paymaster n deposits h p =
    rw (get-put paymaster p (pos n) deposits) (ground (arith, h p))

minus_covered :
    (d : ℤ) (prefund : ℕ)
    → ltb_ℤ d (pos prefund) ≡ false
    → is_covered (some (d -ℤ pos prefund)) ≡ true
unfolding ◌-ℤ◌
minus_covered (pos n) prefund h = ground arith
minus_covered (negsuc n) prefund h = ground arith

charge-Covered :
    (o : Option ℤ) (paymaster : String) (prefund : ℕ) (deposits : Dict ℤ)
    → falls_short o prefund ≡ false
    → Covered deposits
    → Covered (charge o paymaster prefund deposits)
unfolding charge
charge-Covered none paymaster prefund deposits h c p = c p
charge-Covered (some d) paymaster prefund deposits h c p =
    rw (get-put paymaster p (d -ℤ pos prefund) deposits)
      (ground (arith, c p, minus_covered d prefund h))

-- If the paymaster passes the test of its deposit, charging it leaves no deposit below zero.
pub charged-Covered :
    (paymaster : Option String) (result : ValidateUserOpResult) (deposits : Dict ℤ)
    → paymaster_has_insufficient_deposit paymaster result deposits ≡ false
    → Covered deposits
    → Covered (charged paymaster result.return_info.prefund deposits)
unfolding paymaster_has_insufficient_deposit
charged-Covered none result deposits h c = c
charged-Covered (some a) result deposits h c = elim (Bool-cases (a == "")) [
  | inl blank ↦ rw blank c
  | inr named ↦
      rw named
        (charge-Covered (get a deposits) a result.return_info.prefund deposits (rw named at h) c)
]

-- With a factory the operation of a paymaster is not counted for the paymaster: the count of an
-- address that is not the factory stays as it was.
pub count-update_entity_stake_count_and_deposit :
    (op : UserOperation) (result : ValidateUserOpResult) (counts : Dict ℕ) (deposits : Dict ℤ)
    (factory a : String)
    → op.factory ≡ some factory
    → factory ≢ ""
    → a ≢ factory
    → get a (update_entity_stake_count_and_deposit op result counts deposits).0 ≡ get a counts
unfolding update_entity_stake_count_and_deposit increment_count
count-update_entity_stake_count_and_deposit op result counts deposits factory a h named other =
    ground (
      arith,
      eq_iff factory "",
      eq_iff factory a,
      get-put factory a (or_else (get factory counts) 0 + 1) counts,
    )
