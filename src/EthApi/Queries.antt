-- ===== src/EthApi/Queries.antt =====
-- apis/eth/eth-api.ts and apis/eth/eth-api.helpers.ts: the estimate of gas, and an operation by its hash. What the
-- node answers, the calculation of the gas and the parser of a transaction are arguments.
use transeptor_bundler.Prelude.{
  ℕ, String, Bool, ◌&&◌, ◌==◌, not, List, [], ◌∷◌, eqb, Option, none, some, if◌then◌else◌,
}
use transeptor_bundler.Prelude.Int.{ℤ, pos, ◌-ℤ◌}
use transeptor_bundler.Types.{UserOperation}
use transeptor_bundler.Errors.{RpcError}
use transeptor_bundler.Outcome.{Either, left, right, flat_map}
use transeptor_bundler.UserOps.Packing.{Hex, PackedUserOperation, PackError, unpack_user_op}
use transeptor_bundler.Validation.Input.{is_hex}
use transeptor_bundler.Simulation.Running.{ExecutionResult}

-- The call gas may fall below zero.
pub record EstimateUserOpGasResult : Type 0 where
  pub pre_verification_gas : ℕ
  pub verification_gas_limit : ℕ
  pub call_gas_limit : ℤ
  pub validity : Option (ℕ × ℕ)

abbrev pub transaction_gas_stipend : ℕ
transaction_gas_stipend = 21000

unfoldable pub extract_verification_gas_limit :
    EstimateUserOpGasResult
    → Either RpcError ExecutionResult
    → Either RpcError EstimateUserOpGasResult
extract_verification_gas_limit estimate result = flat_map result (λ res. right (record estimate {
  validity = some (res.valid_after, res.valid_until);
  verification_gas_limit = res.pre_op_gas;
}))

unfoldable pub extract_call_gas_limit :
    EstimateUserOpGasResult → Either RpcError ℕ → Either RpcError EstimateUserOpGasResult
extract_call_gas_limit estimate result =
    flat_map result (λ limit.
      right (record estimate { call_gas_limit = pos limit -ℤ pos transaction_gas_stipend }))

-- The chain after the input was accepted.
unfoldable pub estimate_user_operation_gas :
    ℕ
    → Either RpcError ℕ
    → Either RpcError ExecutionResult
    → Either RpcError EstimateUserOpGasResult
unfolding extract_call_gas_limit extract_verification_gas_limit
estimate_user_operation_gas pre_verification_gas call_gas result =
    flat_map
      (extract_call_gas_limit
        (record {
          pre_verification_gas = pre_verification_gas;
          verification_gas_limit = 0;
          call_gas_limit = pos 0;
          validity = none;
        })
        call_gas)
      (λ estimate. extract_verification_gas_limit estimate result)

-- The event of an operation, and the transaction that it stands in: its recipient and the operations that
-- the contract's interface reads from it.
pub record OperationEvent : Type 0 where
  pub sender : String
  pub nonce : ℕ
  pub tx_to : String
  pub tx_hash : String
  pub tx_ops : Option (List PackedUserOperation)

pub data QueryError : Type 0 where
  invalid_user_op_hash unable_to_parse_transaction unable_to_find_user_op : QueryError
  not_unpacked : PackError → QueryError

abbrev pub is_op_of : OperationEvent → PackedUserOperation → Bool
is_op_of event op = op.sender == event.sender && eqb op.nonce event.nonce

-- Array.prototype.find
abbrev pub find_op : OperationEvent → List PackedUserOperation → Option PackedUserOperation
find_op event [] = none
find_op event (op ∷ ops) = if is_op_of event op then some op else find_op event ops

module _ (hex : Hex) (entry_point_address : String) where
  abbrev pub unpacked : Option PackedUserOperation → Either QueryError (Option UserOperation)
  unpacked none = left unable_to_find_user_op
  unpacked (some op) = elim (unpack_user_op hex op) [
    | left e ↦ left (not_unpacked e)
    | right u ↦ right (some u)
  ]

  abbrev pub from_ops :
      OperationEvent → Option (List PackedUserOperation) → Either QueryError (Option UserOperation)
  from_ops event none = left unable_to_parse_transaction
  from_ops event (some ops) = unpacked (find_op event ops)

  abbrev pub from_event : Option OperationEvent → Either QueryError (Option UserOperation)
  from_event none = right none
  from_event (some event) =
      if not (event.tx_to == entry_point_address)
      then left unable_to_parse_transaction
      else from_ops event event.tx_ops

  -- An event that is not found gives null.
  unfoldable pub get_user_operation_by_hash :
      (String → Option OperationEvent) → String → Either QueryError (Option UserOperation)
  get_user_operation_by_hash event_of hash =
      if not (is_hex hash) then left invalid_user_op_hash else from_event (event_of hash)
