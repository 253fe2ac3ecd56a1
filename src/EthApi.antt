-- ===== src/EthApi.antt =====
-- apis/eth/eth-api.ts: how an operation comes from a client into the pool. The hash of an operation is
-- an answer of the contract, and the number that a text stands for is read by a parameter.
pub mod Sending
pub mod Refusals
pub mod Queries
pub mod Found
use transeptor_bundler.Prelude.{
  ℕ, String, Bool, true, List, [], ◌∷◌, ◌++◌, Option, none, some, if◌then◌else◌,
}
use transeptor_bundler.Types.{UserOperation, ValidateUserOpResult}
use transeptor_bundler.Errors.{RpcError}
use transeptor_bundler.Outcome.{Either, left, right, Result, returned, thrown}
use transeptor_bundler.State.{State}
use transeptor_bundler.Mempool.Manager.{ManagerConfig, RelayUserOpParam, add_user_op}
use transeptor_bundler.Validation.{ValidateError, of_rpc, Validated, Node, validate_user_op}
use transeptor_bundler.Validation.Input.{
  Object, ValidateInputParams, Flags, validate_input_parameters,
}

pub record EthApiConfig : Type 0 where
  pub entry_point_address : String
  pub eip7702_support : Bool
  pub is_unsafe_mode : Bool
  pub manager : ManagerConfig
  pub node : Node
  pub validate_pre_verification_gas : Object → Bool × ℕ
  pub read_user_op : Object → UserOperation
  pub get_user_op_hash : UserOperation → Either String String

-- The stages that `sendUserOperation` logs, and the hash that is known by then.
pub data LifecycleEvent : Type 0 where
  user_op_received : LifecycleEvent
  user_op_rejected user_op_included_in_mempool : String → LifecycleEvent

-- An error of the service, or of the network.
pub data SendError : Type 0 where
  of_validation : ValidateError → SendError
  of_network : String → SendError

-- The answer to the client, or an exception; the events that were logged; and the store. `none` means
-- that the parser's loop ran out of fuel.
pub record Sent : Type 0 where
  pub answer : Result (Option (Either SendError String))
  pub events : List LifecycleEvent
  pub store : State

abbrev pub answered : SendError → String → State → Sent
answered e hash s = record {
  answer = returned (some (left e));
  events = user_op_received ∷ user_op_rejected hash ∷ [];
  store = s;
}

abbrev pub failed : RpcError → State → Sent
failed e s = record { answer = thrown e; events = user_op_received ∷ []; store = s }

abbrev pub relay_param : UserOperation → String → ValidateUserOpResult → RelayUserOpParam
relay_param op hash res = record {
  user_op = op;
  user_op_hash = hash;
  prefund = res.return_info.prefund;
  referenced_contracts = res.referenced_contracts;
  sender_info = res.sender_info;
  paymaster_info = res.paymaster_info;
  factory_info = res.factory_info;
  aggregator_info = res.aggregator_info;
}

abbrev pub relayed : String → Result (Either RpcError String) × State → Sent
relayed hash (thrown e, s) = failed e s
relayed hash (returned (left e), s) = answered (of_validation (of_rpc e)) hash s
relayed hash (returned (right h), s) = record {
  answer = returned (some (right h));
  events = user_op_received ∷ user_op_included_in_mempool hash ∷ [];
  store = s;
}

abbrev pub all_checks : Flags
all_checks = record {
  require_signature = true;
  require_gas_params = true;
  pre_verification_gas_check = true;
}

module _ (config : EthApiConfig) (now : ℕ) where
  abbrev pub params : Option Object → Option String → ValidateInputParams
  params input entry_point = record {
    user_op_input = input;
    entry_point_input = entry_point;
    entry_point_address = config.entry_point_address;
    eip7702_support = config.eip7702_support;
  }

  abbrev after_validation : UserOperation → String → Result (Option Validated) → State → Sent
  after_validation op hash (thrown e) s = failed e s
  after_validation op hash (returned none) s = record {
    answer = returned none;
    events = user_op_received ∷ [];
    store = s;
  }
  after_validation op hash (returned (some (left e))) s = answered (of_validation e) hash s
  after_validation op hash (returned (some (right res))) s =
      relayed hash (add_user_op config.manager (relay_param op hash res) s)

  abbrev after_hash : UserOperation → Either String String → State → Sent
  after_hash op (left message) s = answered (of_network message) "0x0" s
  after_hash op (right hash) s =
      after_validation op hash (validate_user_op config.node config.is_unsafe_mode now op none) s

  abbrev after_input : Result (Either RpcError Object) → State → Sent
  after_input (thrown e) s = failed e s
  after_input (returned (left e)) s = answered (of_validation (of_rpc e)) "0x0" s
  after_input (returned (right object)) s =
      after_hash (config.read_user_op object) (config.get_user_op_hash (config.read_user_op object))
        s

  unfoldable pub send_user_operation : Option Object → Option String → State → Sent
  send_user_operation input entry_point s =
      after_input
        (validate_input_parameters config.validate_pre_verification_gas all_checks
          (params input entry_point))
        s
