-- ===== src/Deposit.antt =====
-- deposit/deposit-manager.ts: a paymaster must be able to pay for its pending operations.
-- `balanceOf` of the entry point contract is a parameter.
use transeptor_bundler.Prelude.{
  ℕ, suc, ◌+◌, ◌*◌, ◌≤◌, String, ◌≡◌, ◌≢◌, Bool, false, ◌||◌, not, ◌==◌, eq_iff, List, [], ◌∷◌,
  length, filter, none, some, arith, inl, inr, if◌then◌else◌, ◌↔◌, Bool-cases,
}
use transeptor_bundler.Prelude.Int.{ℤ, pos, pos_part, neg_part, ◌-ℤ◌, -ℤ_parts, int_laws, ltb_ℤ}
use transeptor_bundler.Prelude.Dict.{values}
use transeptor_bundler.Types.{UserOperation, MempoolEntry}
use transeptor_bundler.Errors.{deposit_too_low}
use transeptor_bundler.Outcome.{Result, returned, require_cond}
use transeptor_bundler.State.{State}
use transeptor_bundler.UserOps.{get_user_op_max_cost}

abbrev pub zero_address : String
zero_address = "0x0000000000000000000000000000000000000000"

-- entry.userOp.paymaster === paymaster
abbrev pub pays_for : String → MempoolEntry → Bool
pays_for paymaster entry = elim entry.user_op.paymaster [ none ↦ false | some p ↦ p == paymaster ]

-- The `forEach`: the cost that is taken off is that of the operation that is added.
unfoldable pub charge_pending : String → ℕ → List MempoolEntry → ℤ → ℤ
charge_pending paymaster cost [] deposit = deposit
charge_pending paymaster cost (entry ∷ entries) deposit =
    charge_pending paymaster cost entries
      (if pays_for paymaster entry then deposit -ℤ pos cost else deposit)

unfoldable pub check_deposit : (String → ℕ) → UserOperation → String → State → Result (Unit {0})
check_deposit balance_of op paymaster s =
    if paymaster == "0x" || paymaster == zero_address
    then returned tt
    else let deposit = pos (balance_of paymaster) -ℤ pos (get_user_op_max_cost op) in
      require_cond
        (not (
          ltb_ℤ
            (charge_pending paymaster (get_user_op_max_cost op) (values s.standard_pool) deposit)
            (pos 0)))
        deposit_too_low

unfoldable pub check_paymaster_deposit : (String → ℕ) → UserOperation → State → Result (Unit {0})
check_paymaster_deposit balance_of op s = elim op.paymaster [
  | none ↦ returned tt
  | some paymaster ↦ check_deposit balance_of op paymaster s
]

charge_pending_parts :
    (paymaster : String) (cost : ℕ) (entries : List MempoolEntry) (deposit : ℤ)
    → pos_part (charge_pending paymaster cost entries deposit)
        + neg_part deposit
        + length (filter (pays_for paymaster) entries) * cost
      ≡ neg_part (charge_pending paymaster cost entries deposit) + pos_part deposit
unfolding charge_pending
charge_pending_parts paymaster cost [] deposit = omega arith
charge_pending_parts paymaster cost (entry ∷ entries) deposit =
    elim (Bool-cases (pays_for paymaster entry)) [
      | inl hit ↦
          rw hit
            (omega (int_laws, charge_pending_parts paymaster cost entries (deposit -ℤ pos cost)))
      | inr miss ↦ rw miss (charge_pending_parts paymaster cost entries deposit)
    ]

-- The check accepts an operation of a paymaster, which is neither '0x' nor the zero address, exactly if the deposit covers the cost of that one
-- operation as often as the paymaster has operations in the pool, and once more: what the pending
-- operations themselves cost is not looked at.
pub check_paymaster_deposit_iff :
    (balance_of : String → ℕ) (op : UserOperation) (paymaster : String) (s : State)
    → op.paymaster ≡ some paymaster
    → paymaster ≢ "0x"
    → paymaster ≢ zero_address
    → (check_paymaster_deposit balance_of op s ≡ returned tt) ↔ (
        (suc (length (filter (pays_for paymaster) (values s.standard_pool)))
          * get_user_op_max_cost op)
        ≤ balance_of paymaster)
unfolding check_paymaster_deposit check_deposit
check_paymaster_deposit_iff balance_of op paymaster s pays real nonzero =
    let deposit = pos (balance_of paymaster) -ℤ pos (get_user_op_max_cost op) in
    ground (
      arith,
      eq_iff paymaster "0x",
      eq_iff paymaster zero_address,
      charge_pending_parts paymaster (get_user_op_max_cost op) (values s.standard_pool) deposit,
      -ℤ_parts (pos (balance_of paymaster)) (pos (get_user_op_max_cost op)),
    )
