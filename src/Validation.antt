-- ===== src/Validation.antt =====
-- validation/validation.helper.ts and validation/validation-service.ts: the validation of an operation.
-- What the node answers, the signer of an authorization and the clock are arguments.
pub mod Input
pub mod Accepted
use transeptor_bundler.Prelude.{
  ℕ, String, Bool, true, false, ◌||◌, not, ◌==◌, List, [], ◌∷◌, length, leb, ltb, eqb, Option, none,
  some, if◌then◌else◌,
}
use transeptor_bundler.Prelude.Text.{to_lower_case}
use mathlib.Core.Option
use transeptor_bundler.Types.{
  Eip7702Authorization, UserOperation, StakeInfo, ReferencedCodeHashes, ValidationResult,
  ValidateUserOpResult, StorageMap,
}
use transeptor_bundler.Errors.{
  RpcError, invalid_user_op_signature, already_expired, time_range_in_the_future, modified_code,
  invalid_chain_id, signer_is_not_sender,
}
use transeptor_bundler.Outcome.{
  Either, left, right, flat_map, fold, Result, returned, thrown, ◌>>=◌, ◌>>◌, require_cond,
}
use transeptor_bundler.Bundle.{get_authorization_list}
use transeptor_bundler.Erc7562.{Erc7562Call, ParserError}
use transeptor_bundler.Erc7562.Runner.{ParserConfig, ValidationResults, parse_tracer_result}

-- An error of the service or of the parser.
pub data ValidateError : Type 0 where
  of_rpc : RpcError → ValidateError
  of_parser : ParserError → ValidateError

abbrev pub Validated : Type 0
Validated = Either ValidateError ValidateUserOpResult

-- The result has its gas: a simulation whose trace has no inner call gives none, and the test of the gas
-- would throw. Three more tests, on the aggregator, on an operation that expires within 30 seconds and on the gas
-- that verification leaves, make an error that is not returned.
unfoldable pub check_validation_result :
    ℕ → ValidateUserOpResult → Either RpcError ValidateUserOpResult
check_validation_result now res =
    if res.return_info.sig_failed
    then left invalid_user_op_signature
    else if not (leb res.return_info.valid_after now)
    then left (time_range_in_the_future res.return_info.valid_after now)
    else if not (leb now res.return_info.valid_until)
    then left already_expired
    else right res

-- The two tests of an authorization; the signer is that of the first one of the list.
pub record Authorities : Type 0 where
  pub chain_id : ℕ
  pub signer_of : Eip7702Authorization → String

unfoldable pub check_authorizations :
    Authorities
    → Eip7702Authorization
    → List Eip7702Authorization
    → UserOperation
    → Result (Unit {0})
check_authorizations a first [] op = returned tt
check_authorizations a first (authorization ∷ rest) op =
    require_cond (eqb authorization.chain_id 0 || eqb authorization.chain_id a.chain_id)
      invalid_chain_id
    >> require_cond (to_lower_case (a.signer_of first) == to_lower_case op.sender)
        signer_is_not_sender
    >> check_authorizations a first rest op

abbrev pub check_authorization_list :
    Authorities → List Eip7702Authorization → UserOperation → Result (Unit {0})
check_authorization_list a [] op = returned tt
check_authorization_list a (first ∷ rest) op = check_authorizations a first (first ∷ rest) op

-- What the node answers: the hash of the code at addresses, and the two simulations.
pub record Node : Type 0 where
  pub parser : ParserConfig
  pub authorities : Authorities
  pub run_contract_script : List String → String
  pub full_simulate_validation : UserOperation → Either RpcError (ValidationResult × Erc7562Call)
  pub partial_simulate_validation : UserOperation → Either RpcError ValidationResult

-- [COD-010]
unfoldable pub check_code : Node → Option ReferencedCodeHashes → Result (Unit {0})
check_code node none = returned tt
check_code node (some previous) =
    if ltb 0 (length previous.addresses)
    then require_cond (node.run_contract_script previous.addresses == previous.hash) modified_code
    else returned tt

-- { ...validationResult, storageMap, referencedContracts }; the context of the paymaster is not read
-- again.
abbrev pub with_contracts :
    ValidationResult → StorageMap → ReferencedCodeHashes → ValidateUserOpResult
with_contracts result storage_map hashes = record {
  return_info = result.return_info;
  sender_info = result.sender_info;
  factory_info = result.factory_info;
  paymaster_info = Option.map (λ p. p.info) result.paymaster_info;
  aggregator_info = result.aggregator_info;
  referenced_contracts = hashes;
  storage_map = storage_map;
}

abbrev pub no_hashes : ReferencedCodeHashes
no_hashes = record { addresses = []; hash = "" }

-- Hashes are taken in the first validation only.
abbrev pub code_hashes : Node → Option ReferencedCodeHashes → List String → ReferencedCodeHashes
code_hashes node none addresses = record {
  addresses = addresses;
  hash = node.run_contract_script addresses;
}
code_hashes node (some previous) addresses = no_hashes

abbrev pub with_trace :
    Node
    → ValidationResult
    → Option ReferencedCodeHashes
    → Either ParserError ValidationResults
    → Validated
with_trace node result previous (left e) = left (of_parser e)
with_trace node result previous (right parsed) =
    right (
      with_contracts result parsed.storage_map
        (code_hashes node previous parsed.contract_addresses))

-- `none` means that the parser's loop ran out of fuel.
unfoldable pub full_val_result_safe_parse :
    Node
    → UserOperation
    → Option ReferencedCodeHashes
    → ValidationResult
    → Erc7562Call
    → Option Validated
full_val_result_safe_parse node op previous result call =
    Option.map (with_trace node result previous) (parse_tracer_result node.parser op call result)

abbrev pub checked_at : ℕ → Validated → Validated
checked_at now (left e) = left e
checked_at now (right res) = fold (check_validation_result now res) (λ e. left (of_rpc e)) right

unfoldable pub simulated :
    Node → Bool → UserOperation → Option ReferencedCodeHashes → Option Validated
unfolding full_val_result_safe_parse
simulated node false op previous =
    fold (node.full_simulate_validation op) (λ e. some (left (of_rpc e)))
      (λ r. full_val_result_safe_parse node op previous r.0 r.1)
simulated node true op previous = some (
    fold (node.partial_simulate_validation op) (λ e. left (of_rpc e))
      (λ result. right (with_contracts result [] no_hashes)))

-- validateUserOp, in the unsafe mode or not
unfoldable pub validate_user_op :
    Node → Bool → ℕ → UserOperation → Option ReferencedCodeHashes → Result (Option Validated)
unfolding check_code simulated
validate_user_op node is_unsafe_mode now op previous =
    check_code node previous
    >> check_authorization_list node.authorities (get_authorization_list op) op
    >> returned (Option.map (checked_at now) (simulated node is_unsafe_mode op previous))
