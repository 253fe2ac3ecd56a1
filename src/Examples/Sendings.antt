-- ===== src/Examples/Sendings.antt =====
-- Tests of the way of an operation into the pool.
use transeptor_bundler.Prelude.{◌≡◌, ◌≢◌, refl, true, false, String, [], ◌∷◌, none, some}
use transeptor_bundler.Prelude.Int.{◌-ℤ◌}
use transeptor_bundler.Prelude.Dict.{get}
use transeptor_bundler.Prelude.Text.{to_lower_case, has_hex_prefix, all_hex}
use transeptor_bundler.Types.{ValidationResult, ValidateUserOpResult}
use transeptor_bundler.Outcome.{right, returned}
use transeptor_bundler.State.{init}
use transeptor_bundler.Reputation.{get_status, calculate_max_allowed_mempool_ops_unstaked}
use transeptor_bundler.Reputation.Checks.{check_banned, check_throttled, check_stake}
use transeptor_bundler.UserOps.{get_user_op_max_cost}
use transeptor_bundler.Deposit.{check_paymaster_deposit, check_deposit, charge_pending}
use transeptor_bundler.Mempool.{
  find_by_sender_nonce, find_slot, get_known_entities, get_known_senders, senders_of, entities_of,
  check_multiple_roles_violation,
}
use transeptor_bundler.Mempool.Admission.{
  replace_or_add_user_op_checks, checks_for, check_reputation, check_reputation_status,
}
use transeptor_bundler.Mempool.Manager.{new_entry, add_user_op, conclude, find_by_hash}
use transeptor_bundler.Erc7562.{Erc7562Call}
use transeptor_bundler.Erc7562.Runner.Safety.{EveryCall, IsHarmless}
use transeptor_bundler.Validation.Accepted.{IsCurrent}
use transeptor_bundler.Validation.Input.{
  Object, is_hex, require_address_and_fields, check_fields, validate_input_parameters,
}
use transeptor_bundler.Validation.Input.Meaning.{IsSupported, OperationFits}
use transeptor_bundler.EthApi.{
  EthApiConfig, user_op_received, user_op_included_in_mempool, relay_param, all_checks, params,
  send_user_operation,
}
use transeptor_bundler.Validation.{validate_user_op}
use transeptor_bundler.EthApi.Sending.{send_user_operation_safe}
use transeptor_bundler.EthApi.Refusals.{IsRefused, send_user_operation-IsRefused}
use transeptor_bundler.Examples.{op, config}
use transeptor_bundler.Examples.Requests.{node, validated, first_validation}

abbrev api : EthApiConfig
api = record {
  entry_point_address = "0xe9e9e9";
  eip7702_support = false;
  is_unsafe_mode = false;
  manager = config;
  node = node;
  validate_pre_verification_gas = λ _. (true, 0);
  read_user_op = λ _. op;
  get_user_op_hash = λ _. right "h1";
}

abbrev sent_object : Object
sent_object =
    ("sender", some "0xa1a1a1a1a1")
    ∷ ("nonce", some "0x7")
    ∷ ("callData", some "0x")
    ∷ ("signature", some "0x")
    ∷ ("preVerificationGas", some "0x5")
    ∷ ("verificationGasLimit", some "0x14")
    ∷ ("callGasLimit", some "0xa")
    ∷ ("maxFeePerGas", some "0x64")
    ∷ ("maxPriorityFeePerGas", some "0xa")
    ∷ []

accepted_input :
    validate_input_parameters
      (λ _. (true, 0))
      all_checks
      (params api 50 (some sent_object) (some "0xE9E9E9"))
    ≡ returned (right sent_object)
unfolding validate_input_parameters require_address_and_fields check_fields is_hex get to_lower_case
    has_hex_prefix all_hex
accepted_input = refl

into_pool : (add_user_op config (relay_param op "h1" validated) init).0 ≡ returned (right "h1")
unfolding add_user_op conclude replace_or_add_user_op_checks checks_for check_reputation
    check_reputation_status check_banned check_throttled check_stake find_by_sender_nonce find_slot
    get_known_entities get_known_senders senders_of entities_of check_multiple_roles_violation
    get_status calculate_max_allowed_mempool_ops_unstaked check_paymaster_deposit check_deposit
    charge_pending get_user_op_max_cost get to_lower_case ◌-ℤ◌
into_pool = refl

answers_hash :
    (send_user_operation api 50 (some sent_object) (some "0xE9E9E9") init).answer
    ≡ returned (some (right "h1"))
unfolding send_user_operation add_user_op conclude replace_or_add_user_op_checks checks_for
    check_reputation check_reputation_status check_banned check_throttled check_stake
    find_by_sender_nonce find_slot get_known_entities get_known_senders senders_of entities_of
    check_multiple_roles_violation get_status calculate_max_allowed_mempool_ops_unstaked
    check_paymaster_deposit check_deposit charge_pending get_user_op_max_cost get to_lower_case ◌-ℤ◌
answers_hash = rw (accepted_input, first_validation) refl

send_user_operation_safe_example :
    (object : Object) × ((some sent_object ≡ some object)
      × IsSupported (params api 50 (some sent_object) (some "0xE9E9E9"))
      × OperationFits (λ _. (true, 0)) all_checks object
      × ((res : ValidateUserOpResult) × ((validate_user_op node false 50 op none
              ≡ returned (some (right res)))
            × IsCurrent 50 res
            × ((result : ValidationResult) × ((c : Erc7562Call) × (node.full_simulate_validation op
                    ≡ right (result, c))
                  × EveryCall node.parser (IsHarmless node.parser op) c))
            × (find_by_hash "h1"
                  (send_user_operation api 50 (some sent_object) (some "0xE9E9E9") init).store
                ≡ some (new_entry (relay_param op "h1" res)))))
      × ((send_user_operation api 50 (some sent_object) (some "0xE9E9E9") init).events
          ≡ user_op_received ∷ user_op_included_in_mempool "h1" ∷ []))
send_user_operation_safe_example =
    send_user_operation_safe api 50 (some sent_object) (some "0xE9E9E9") init "h1" refl answers_hash

-- No entry point is named.
no_hash :
    (h : String)
    → (send_user_operation api 50 (some sent_object) none init).answer ≢ returned (some (right h))
unfolding send_user_operation validate_input_parameters
no_hash h q = cc

send_user_operation-IsRefused_example :
    IsRefused (send_user_operation api 50 (some sent_object) none init) init
send_user_operation-IsRefused_example =
    send_user_operation-IsRefused api 50 (some sent_object) none init no_hash
