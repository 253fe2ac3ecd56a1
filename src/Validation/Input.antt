-- ===== src/Validation/Input.antt =====
-- The checks of the input of a request: `requireAddressAndFields` (validation/validation.helper.ts) and
-- `validateInputParameters` (validation/validation-service.ts). An operation is the object of texts
-- that a client sends, in which `none` is null; the calculation of the gas is a parameter.
pub mod Fields
pub mod Meaning
use transeptor_bundler.Prelude.{
  ℕ, String, Bool, true, false, ◌&&◌, ◌||◌, not, ◌==◌, List, [], ◌∷◌, ◌++◌, filter, length,
  includes, leb, eqb, Option, none, some, if◌then◌else◌,
}
use transeptor_bundler.Prelude.Dict.{Dict, get, keys}
use transeptor_bundler.Prelude.Text.{to_lower_case, has_hex_prefix, all_hex, text_length, text_drop}
use transeptor_bundler.Errors.{
  RpcError, no_field_but_got, missing_fields_of, invalid_address, no_entry_point, no_user_operation,
  property_of_undefined, entry_point_not_supported, missing_user_op_field, invalid_hex_value,
  pre_verification_gas_too_low,
}
use transeptor_bundler.Outcome.{
  Either, left, right, Result, returned, thrown, ◌>>=◌, ◌>>◌, require_cond,
}
use transeptor_bundler.Erc7562.Rules.{is_set}

abbrev pub Object : Type 0
Object = Dict (Option String)

-- op[name], where null and undefined are the same
abbrev pub field : String → Object → Option String
field name op = elim (get name op) [ none ↦ none | some value ↦ value ]

-- /^0x[a-fA-F\d]*$/i
unfoldable pub is_hex : String → Bool
is_hex s = has_hex_prefix s && all_hex (text_drop 2 s)

-- /^0x[a-f0-9]{10,40}$/i
unfoldable pub is_address : String → Bool
unfolding is_hex
is_address s = is_hex s && leb 12 (text_length s) && leb (text_length s) 42

abbrev pub is_unexpected : List String → List String → String × Option String → Bool
is_unexpected must optional (name, value) =
    is_set value && (includes must name || includes optional name)

abbrev pub is_missing : Object → String → Bool
is_missing op name = not (is_set (field name op))

abbrev is_empty {ℓ} : {A : Type ℓ} → List A → Bool
is_empty xs = eqb (length xs) 0

require_fields : Option String → Object → String → List String → List String → Result (Unit {0})
require_fields none op addr_field must optional =
    let unexpected = filter (is_unexpected must optional) op in
    require_cond (is_empty unexpected) (no_field_but_got addr_field (keys unexpected))
require_fields (some addr) op addr_field must optional =
    let missing = filter (is_missing op) must in
    require_cond (is_address addr) (invalid_address addr_field)
    >> require_cond (is_empty missing) (missing_fields_of addr_field missing)

unfoldable pub require_address_and_fields :
    Object → String → List String → List String → Result (Unit {0})
unfolding require_fields
require_address_and_fields op addr_field must optional =
    require_fields (field addr_field op) op addr_field must optional

pub record ValidateInputParams : Type 0 where
  pub user_op_input : Option Object
  pub entry_point_input : Option String
  pub entry_point_address : String
  pub eip7702_support : Bool

pub record Flags : Type 0 where
  pub require_signature : Bool
  pub require_gas_params : Bool
  pub pre_verification_gas_check : Bool

abbrev gas_fields : List String
gas_fields =
    "preVerificationGas" ∷ "verificationGasLimit" ∷ "callGasLimit" ∷ "maxFeePerGas"
    ∷ "maxPriorityFeePerGas" ∷ []

abbrev pub required_fields : Flags → List String
required_fields flags =
    ("sender" ∷ "nonce" ∷ "callData" ∷ [])
    ++ ((if flags.require_signature then "signature" ∷ [] else [])
        ++ (if flags.require_gas_params then gas_fields else []))

check_field : String → Option String → Either RpcError (Unit {0})
check_field key none = left (missing_user_op_field key)
check_field key (some value) =
    if value == ""
    then left (missing_user_op_field key)
    else if not (is_hex value)
    then left (invalid_hex_value key)
    else right tt

abbrev next_field :
    Either RpcError (Unit {0}) → Either RpcError (Unit {0}) → Either RpcError (Unit {0})
next_field (left e) others = left e
next_field (right u) others = others

unfoldable pub check_fields : Object → List String → Either RpcError (Unit {0})
unfolding check_field
check_fields op [] = right tt
check_fields op (key ∷ keys) = next_field (check_field key (field key op)) (check_fields op keys)

abbrev pub eip_7702_marker_init_code : String
eip_7702_marker_init_code = "0x7702"

abbrev pub is_marker : Option String → Bool
is_marker none = false
is_marker (some factory) = factory == eip_7702_marker_init_code

abbrev pub paymaster_fields : List String
paymaster_fields = "paymasterPostOpGasLimit" ∷ "paymasterVerificationGasLimit" ∷ []

module _ (validate_pre_verification_gas : Object → Bool × ℕ) (flags : Flags) where
  check_gas : Object → Result (Unit {0})
  check_gas op =
      if flags.pre_verification_gas_check
      then require_cond (validate_pre_verification_gas op).0
          (pre_verification_gas_too_low (validate_pre_verification_gas op).1)
      else returned tt

  require_factory : Object → Result (Unit {0})
  unfolding require_address_and_fields
  require_factory op =
      if is_marker (field "factory" op)
      then returned tt
      else require_address_and_fields op "factory" ("factoryData" ∷ []) []

  after_fields : Either RpcError (Unit {0}) → Object → Result (Either RpcError Object)
  unfolding check_gas require_factory
  after_fields (left e) op = returned (left e)
  after_fields (right u) op =
      require_address_and_fields op "paymaster" paymaster_fields ("paymasterData" ∷ [])
      >> require_factory op
      >> check_gas op
      >> returned (right op)

  check_input : Option Object → Result (Either RpcError Object)
  unfolding after_fields check_fields
  check_input none = returned (left no_user_operation)
  check_input (some op) = after_fields (check_fields op (required_fields flags)) op

  -- The test of EIP-7702 tuples makes an error that is not returned, and reads the operation.
  check_entry_point : Option String → ValidateInputParams → Result (Either RpcError Object)
  unfolding check_input
  check_entry_point none params = returned (left no_entry_point)
  check_entry_point (some input) params =
      if input == ""
      then returned (left no_entry_point)
      else if not params.eip7702_support && not (is_set params.user_op_input)
      then thrown property_of_undefined
      else if not (to_lower_case input == to_lower_case params.entry_point_address)
      then returned (left (entry_point_not_supported input))
      else check_input params.user_op_input

  unfoldable pub validate_input_parameters : ValidateInputParams → Result (Either RpcError Object)
  unfolding check_entry_point
  validate_input_parameters params = check_entry_point params.entry_point_input params
