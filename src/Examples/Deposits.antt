-- ===== src/Examples/Deposits.antt =====
-- Tests of the deposit manager.
use transeptor_bundler.Prelude.{◌≡◌, ◌≤◌, ◌↔◌, ◌*◌, refl}
use transeptor_bundler.Outcome.{returned}
use transeptor_bundler.UserOps.{get_user_op_max_cost}
use transeptor_bundler.Deposit.{check_paymaster_deposit, check_paymaster_deposit_iff}
use transeptor_bundler.Examples.{op, two_entries}

-- The paymaster has one operation in the pool.
check_paymaster_deposit_iff_example :
    (check_paymaster_deposit (λ _. 10000) op two_entries ≡ returned tt)
    ↔ (2 * get_user_op_max_cost op ≤ 10000)
check_paymaster_deposit_iff_example =
    check_paymaster_deposit_iff (λ _. 10000) op "0xB2" two_entries refl (λ h. cc) (λ h. cc)
