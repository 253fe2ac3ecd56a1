-- ===== src/Simulation/Running.antt =====
-- sim/sim.ts: what is made of the answers of the node to a simulation. The packed operation, the overrides
-- of the state and the coding of the calls are left to the node.
use mathlib.Core.Option
use transeptor_bundler.Prelude.{ℕ, ◌+◌, ◌==◌, String, Bool, Option, none, some, if◌then◌else◌}
use transeptor_bundler.Prelude.Text.{starts_with}
use transeptor_bundler.Types.{UserOperation, ValidationResult}
use transeptor_bundler.Errors.{
  RpcError, invalid_account_signature, invalid_paymaster_signature, reverted, undecodable_revert,
}
use transeptor_bundler.Outcome.{Either, left, right, flat_map}
use transeptor_bundler.UserOps.{or_zero}
use transeptor_bundler.Reputation.Checks.{DepositInfo}
use transeptor_bundler.Erc7562.{Erc7562Call}
use transeptor_bundler.Simulation.Data.{
  SimulationReturn, parse_simulate_validation_result, merge_validation_data_values,
}
use transeptor_bundler.Simulation.Calls.{
  Coding, parse_tracer_result_calls_for_revert, Stakes, get_stakes, Generated,
  generate_validation_result,
}

-- types/sim.types.ts
pub record ExecutionReturn : Type 0 where
  pub pre_op_gas : ℕ
  pub account_validation_data : ℕ
  pub paymaster_validation_data : ℕ
  pub target_success : Bool
  pub target_result : String

pub record ExecutionResult : Type 0 where
  pub valid_after : ℕ
  pub valid_until : ℕ
  pub pre_op_gas : ℕ
  pub target_success : Bool
  pub target_result : String

-- The aggregator, which says whether the signature failed, is not read.
unfoldable pub parse_execution_result : ExecutionReturn → ExecutionResult
parse_execution_result res =
    let merged =
      merge_validation_data_values res.account_validation_data res.paymaster_validation_data in
    record {
      valid_after = merged.valid_after;
      valid_until = merged.valid_until;
      pre_op_gas = res.pre_op_gas;
      target_success = res.target_success;
      target_result = res.target_result;
    }

-- The payload of an error of the node: the message and the data of its parsed body, or its data.
pub record ErrorPayload : Type 0 where
  pub body : Option (String × Option String)
  pub data_ : Option String

abbrev pub body_data : String → Option String → Option String
body_data message none = none
body_data message (some payload) =
    if payload == "" then none else if message == "execution reverted" then some payload else none

abbrev pub error_data : ErrorPayload → Option String
error_data error = elim error.body [
  | none ↦ error.data_
  | some (message, payload) ↦ body_data message payload
]

module _ (decode_revert_reason : Option String → Option String) where
  abbrev revert_error : Option String → RpcError
  revert_error none = undecodable_revert
  revert_error (some reason) = reverted reason

  unfoldable pub partial_simulate_validation :
      UserOperation → Either ErrorPayload SimulationReturn → Either RpcError ValidationResult
  unfolding parse_simulate_validation_result
  partial_simulate_validation op (left error) =
      left (revert_error (decode_revert_reason (error_data error)))
  partial_simulate_validation op (right res) = right (parse_simulate_validation_result op res)

  abbrev handle_op_error : String → RpcError
  handle_op_error reason =
      if starts_with "FailedOp(0,\"AA24" reason
      then invalid_account_signature
      else if starts_with "FailedOp(0,\"AA34" reason
      then invalid_paymaster_signature
      else reverted reason

  -- `none` is the TypeError for an error that has no reason.
  unfoldable pub simulate_handle_op :
      Either (Option String) ExecutionReturn → Option (Either RpcError ExecutionResult)
  unfolding parse_execution_result
  simulate_handle_op (left payload) =
      Option.map (λ reason. left (handle_op_error reason)) (decode_revert_reason payload)
  simulate_handle_op (right res) = some (right (parse_execution_result res))

-- sum(prevg, verificationGasLimit, paymasterVerificationGasLimit ?? 0)
abbrev pub simulation_gas : ℕ → UserOperation → ℕ
simulation_gas prevg op =
    prevg + op.verification_gas_limit + or_zero op.paymaster_verification_gas_limit

-- A simulation with the tracer: refused by an error of the node or of the operation, or read.
pub data Simulated : Type 0 where
  simulation_refused : RpcError → Simulated
  simulation_read : Generated → Simulated

abbrev pub after_revert : Coding → UserOperation → Stakes → Either RpcError Erc7562Call → Simulated
after_revert coding op stakes (left e) = simulation_refused e
after_revert coding op stakes (right traced) =
    simulation_read (generate_validation_result coding op traced stakes)

unfoldable pub full_simulate_validation :
    Coding → (String → DepositInfo) → UserOperation → Either RpcError Erc7562Call → Simulated
unfolding parse_tracer_result_calls_for_revert get_stakes
full_simulate_validation coding get_deposit_info op traced =
    after_revert coding op (get_stakes get_deposit_info op.sender op.paymaster op.factory)
      (flat_map traced (parse_tracer_result_calls_for_revert coding.decode_revert_reason))
