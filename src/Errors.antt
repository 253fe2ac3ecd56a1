-- ===== src/Errors.antt =====
-- The errors that the components throw or return: `ValidationErrors` (types/validation.types.ts),
-- and `RpcError` (types/error.types.ts) with a constructor for each place that makes one. The text
-- of a message is not modelled, only what is put into it. A TypeError, which has no code, is thrown too.
use transeptor_bundler.Prelude.{ℕ, String, List, Option, none, some}

pub data ValidationErrors : Type 0 where
  parse_error invalid_request method_not_found invalid_fields internal_error : ValidationErrors
  simulate_validation simulate_paymaster_validation opcode_validation : ValidationErrors
  not_in_time_range reputation insufficient_stake : ValidationErrors
  unsupported_signature_aggregator invalid_signature : ValidationErrors
  paymaster_deposit_too_low user_operation_reverted : ValidationErrors

-- The first word of a reputation message.
pub data EntityTitle : Type 0 where
  account paymaster aggregator deployer : EntityTitle

pub data RpcError : Type 0 where
  is_banned is_throttled : EntityTitle → String → RpcError
  stake_too_low unstake_delay_too_low : EntityTitle → String → RpcError
  sender_is_entity paymaster_is_sender factory_is_sender : String → RpcError
  priority_fee_too_low max_fee_too_low : ℕ → ℕ → RpcError
  deposit_too_low : RpcError
  -- validation/validation.helper.ts and validation/validation-service.ts
  invalid_user_op_signature already_expired : RpcError
  time_range_in_the_future : ℕ → ℕ → RpcError
  no_field_but_got missing_fields_of : String → List String → RpcError
  invalid_address : String → RpcError
  modified_code invalid_chain_id signer_is_not_sender : RpcError
  no_entry_point no_user_operation : RpcError
  property_of_undefined : RpcError
  entry_point_not_supported : String → RpcError
  missing_user_op_field invalid_hex_value : String → RpcError
  pre_verification_gas_too_low : ℕ → RpcError
  -- sim/sim.helper.ts
  invalid_account_signature invalid_paymaster_signature : RpcError
  reverted : String → RpcError
  undecodable_revert : RpcError

abbrev pub code : RpcError → Option ValidationErrors
code (is_banned t a) = some ValidationErrors.reputation
code (is_throttled t a) = some ValidationErrors.reputation
code (stake_too_low t a) = some ValidationErrors.insufficient_stake
code (unstake_delay_too_low t a) = some ValidationErrors.insufficient_stake
code (sender_is_entity a) = some ValidationErrors.opcode_validation
code (paymaster_is_sender a) = some ValidationErrors.opcode_validation
code (factory_is_sender a) = some ValidationErrors.opcode_validation
code (priority_fee_too_low o n) = some ValidationErrors.invalid_fields
code (max_fee_too_low o n) = some ValidationErrors.invalid_fields
code deposit_too_low = some ValidationErrors.paymaster_deposit_too_low
code invalid_user_op_signature = some ValidationErrors.invalid_signature
code already_expired = some ValidationErrors.not_in_time_range
code (time_range_in_the_future a n) = some ValidationErrors.not_in_time_range
code (no_field_but_got f names) = some ValidationErrors.invalid_fields
code (missing_fields_of f names) = some ValidationErrors.invalid_fields
code (invalid_address f) = some ValidationErrors.invalid_fields
code modified_code = some ValidationErrors.opcode_validation
code invalid_chain_id = some ValidationErrors.invalid_fields
code signer_is_not_sender = some ValidationErrors.invalid_fields
code no_entry_point = some ValidationErrors.invalid_fields
code no_user_operation = some ValidationErrors.invalid_fields
code (entry_point_not_supported a) = some ValidationErrors.invalid_fields
code (missing_user_op_field f) = some ValidationErrors.invalid_fields
code (invalid_hex_value f) = some ValidationErrors.invalid_fields
code (pre_verification_gas_too_low n) = some ValidationErrors.invalid_fields
code invalid_account_signature = some ValidationErrors.invalid_signature
code invalid_paymaster_signature = some ValidationErrors.invalid_signature
code (reverted reason) = some ValidationErrors.simulate_validation
code undecodable_revert = some ValidationErrors.simulate_validation
code property_of_undefined = none
