-- ===== src/Examples/Requests.antt =====
-- Tests of the validation service.
use transeptor_bundler.Prelude.{
  ◌<◌, ◌≡◌, ◌↔◌, refl, true, false, [], ◌∷◌, length, Option, none, some,
}
use transeptor_bundler.Prelude.Dict.{get}
use transeptor_bundler.Prelude.Text.{to_lower_case, has_hex_prefix, all_hex}
use transeptor_bundler.Types.{ReferencedCodeHashes, ValidationResult, ValidateUserOpResult}
use transeptor_bundler.Outcome.{returned, right}
use transeptor_bundler.Erc7562.{Erc7562Call}
use transeptor_bundler.Erc7562.Runner.Safety.{EveryCall, IsHarmless, called}
use transeptor_bundler.Validation.{
  check_validation_result, Node, check_code, with_contracts, code_hashes,
  full_val_result_safe_parse, simulated, validate_user_op,
}
use transeptor_bundler.Validation.Accepted.{
  IsCurrent, check_validation_result_iff, validate_user_op_safe,
}
use transeptor_bundler.Validation.Input.{
  Object, is_hex, require_address_and_fields, ValidateInputParams, Flags, check_fields,
  validate_input_parameters,
}
use transeptor_bundler.Validation.Input.Meaning.{
  IsSupported, OperationFits, validate_input_parameters_iff,
}
use transeptor_bundler.Examples.{op}
use transeptor_bundler.Examples.Traces.{parser, result, trace, accepted, accepts}

abbrev pub node : Node
node = record {
  parser = parser;
  authorities = record { chain_id = 1; signer_of = λ _. "0xa1" };
  run_contract_script = λ addresses. "0xcode";
  full_simulate_validation = λ _. right (result, trace);
  partial_simulate_validation = λ _. right result;
}

abbrev pub validated : ValidateUserOpResult
validated =
    with_contracts result accepted.storage_map (code_hashes node none accepted.contract_addresses)

pub first_validation : validate_user_op node false 50 op none ≡ returned (some (right validated))
unfolding validate_user_op simulated full_val_result_safe_parse check_code check_validation_result
first_validation = rw accepts refl

validate_user_op_safe_example :
    IsCurrent 50 validated
    × ((p : ReferencedCodeHashes)
        → none ≡ some p
        → 0 < length p.addresses
        → node.run_contract_script p.addresses ≡ p.hash)
    × ((r : ValidationResult) × ((c : Erc7562Call) × (node.full_simulate_validation op
            ≡ right (r, c))
          × EveryCall node.parser (IsHarmless node.parser op) c
          × (◌≡◌ {A = Option ReferencedCodeHashes} none none
              → validated.referenced_contracts.addresses ≡ called node.parser c)))
validate_user_op_safe_example = validate_user_op_safe node 50 op none validated first_validation

check_validation_result_iff_example :
    (check_validation_result 50 validated ≡ right validated)
    ↔ (IsCurrent 50 validated × (validated ≡ validated))
check_validation_result_iff_example = check_validation_result_iff 50 validated validated

abbrev object : Object
object =
    ("sender", some "0xa1a1a1a1a1")
    ∷ ("nonce", some "0x7")
    ∷ ("callData", some "0x")
    ∷ ("paymaster", none)
    ∷ []

abbrev request : ValidateInputParams
request = record {
  user_op_input = some object;
  entry_point_input = some "0xE9E9E9";
  entry_point_address = "0xe9e9e9";
  eip7702_support = false;
}

abbrev flags : Flags
flags = record {
  require_signature = false;
  require_gas_params = false;
  pre_verification_gas_check = true;
}

passes : validate_input_parameters (λ _. (true, 0)) flags request ≡ returned (right object)
unfolding validate_input_parameters require_address_and_fields check_fields is_hex get to_lower_case
    has_hex_prefix all_hex
passes = refl

validate_input_parameters_iff_example :
    (validate_input_parameters (λ _. (true, 0)) flags request ≡ returned (right object)) ↔ (
      IsSupported request
      × (request.user_op_input ≡ some object)
      × OperationFits (λ _. (true, 0)) flags object)
validate_input_parameters_iff_example =
    validate_input_parameters_iff (λ _. (true, 0)) flags request object
