-- ===== src/Erc7562/Rules.antt =====
-- sim/erc7562-parser.ts: the rules on opcodes, creation, deployed code, the entry point, values,
-- precompiles and the context of a paymaster. The interfaces of the contracts, which give the name of
-- a method from its signature, are a parameter.
pub mod Meaning
use transeptor_bundler.Prelude.{
  ℕ, String, Bool, true, false, ◌&&◌, ◌||◌, not, ◌==◌, List, [], ◌∷◌, includes, leb, eqb, Option,
  none, some, if◌then◌else◌,
}
use transeptor_bundler.Prelude.Dict.{Dict, keys}
use transeptor_bundler.Prelude.Text.{to_lower_case, text_take}
use transeptor_bundler.Types.{ValidationResult, PaymasterValidationInfo}
use transeptor_bundler.Outcome.{right}
use transeptor_bundler.Erc7562.{
  CallFrameType, create, create2, ContractSize, Frame, AccountAbstractionEntity, account, factory,
  paymaster, op011, op020, op041, op054, op061, op062, erep050, RunnerState, here, Checked,
  violates, is_lower_of, is_entity_staked, is_precompiled, is_forbidden_precompiled,
  is_call_to_entry_point,
}
use transeptor_bundler.Erc7562.Opcodes.{banned_op_codes, opcodes_only_in_staked_entities, used_of}

abbrev pub is_factory : AccountAbstractionEntity → Bool
is_factory factory = true
is_factory _ = false

abbrev pub is_account : AccountAbstractionEntity → Bool
is_account account = true
is_account _ = false

abbrev pub is_paymaster : AccountAbstractionEntity → Bool
is_paymaster paymaster = true
is_paymaster _ = false

abbrev pub is_create : CallFrameType → Bool
is_create create = true
is_create _ = false

abbrev pub is_create2 : CallFrameType → Bool
is_create2 create2 = true
is_create2 _ = false

abbrev pub is_set {ℓ} : {A : Type ℓ} → Option A → Bool
is_set none = false
is_set (some a) = true

-- The loops over opcodes end at the first one.
abbrev unless_used : List String → Checked → Checked → Checked
unless_used [] found passed = passed
unless_used (name ∷ names) found passed = found

unfoldable pub check_op020 : RunnerState → Checked
check_op020 s = if (here s).out_of_gas then violates op020 (here s).from s else right s

unfoldable pub is_allowed_create : RunnerState → Bool
is_allowed_create s =
    let from = to_lower_case (here s).from in
    let sender = to_lower_case s.user_op.sender in
    let by_op032 =
      is_set s.user_op.factory
      && is_create (here s).type
      && (is_account s.current_entity || is_factory s.current_entity)
      && from == sender in
    let by_erep060 =
      (from == sender || is_lower_of s.user_op.factory from)
      && is_entity_staked s.validation_result factory in
    let sender_by_factory = is_factory s.current_entity && to_lower_case (here s).to == sender in
    by_op032 || by_erep060 || sender_by_factory

unfoldable pub check_op031 : RunnerState → Checked
check_op031 s =
    if not (is_create (here s).type) && not (is_create2 (here s).type)
    then right s
    else if not (is_allowed_create s)
    then violates op011 (here s).from s
    else right s

unfoldable pub check_op080 : RunnerState → Checked
check_op080 s =
    unless_used
      (if is_entity_staked s.validation_result s.current_entity
        then []
        else used_of opcodes_only_in_staked_entities (here s).used_opcodes)
      (violates op011 (here s).from s) (right s)

-- context != null && context !== '0x'
abbrev pub has_context : Option PaymasterValidationInfo → Bool
has_context none = false
has_context (some p) = elim p.context [ none ↦ false | some c ↦ not (c == "0x") ]

unfoldable pub check_erep050 : RunnerState → Checked
check_erep050 s =
    if is_paymaster s.current_entity
      && not (is_entity_staked s.validation_result s.current_entity)
      && has_context s.validation_result.paymaster_info
    then violates erep050 (here s).from s
    else right s

-- The loop over the addresses of contractSize.
unfoldable pub check_precompiles : List String → RunnerState → Checked
check_precompiles [] s = right s
check_precompiles (address ∷ addresses) s =
    if is_forbidden_precompiled address
    then violates op062 (here s).from s
    else check_precompiles addresses s

unfoldable pub check_op062_allowed_precompiles : RunnerState → Checked
check_op062_allowed_precompiles s = check_precompiles (keys (here s).contract_size) s

-- BigInt(value ?? 0)
abbrev pub value_of : Option ℕ → ℕ
value_of none = 0
value_of (some n) = n

abbrev pub known_method : (String → Option String) → Option String → String
known_method function_name none = "<no-input>"
known_method function_name (some input) = elim (function_name (text_take 10 input)) [
  | none ↦ text_take 10 input
  | some name ↦ name
]

abbrev pub allowed_methods : List String
allowed_methods =
    "depositTo" ∷ "0x" ∷ "acceptAccount" ∷ "acceptPaymaster" ∷ "sigFailAccount" ∷ "sigFailPaymaster"
    ∷ []

module _ (entry_point_address : String) where
  unfoldable pub check_op011 : RunnerState → Checked
  check_op011 s =
      if to_lower_case (here s).to == entry_point_address
      then right s
      else unless_used (used_of banned_op_codes (here s).used_opcodes)
          (violates op011 (here s).to s) (right s)

  unfoldable pub lacks_code : RunnerState → String → ContractSize → Bool
  lacks_code s address size =
      not (to_lower_case address == to_lower_case s.user_op.sender)
      && not (to_lower_case address == entry_point_address)
      && leb size.contract_size 2

  -- The loop over the entries of contractSize.
  unfoldable pub check_sizes : Dict ContractSize → RunnerState → Checked
  check_sizes [] s = right s
  check_sizes ((address, size) ∷ sizes) s =
      if not (is_precompiled address) && lacks_code s address size
      then violates op041 address s
      else check_sizes sizes s

  unfoldable pub check_op041 : RunnerState → Checked
  check_op041 s = check_sizes (here s).contract_size s

  unfoldable pub check_ext_code : List String → RunnerState → Checked
  check_ext_code [] s = right s
  check_ext_code (address ∷ addresses) s =
      if to_lower_case address == entry_point_address
      then violates op054 (here s).to s
      else check_ext_code addresses s

  unfoldable pub check_op054_ext_code : RunnerState → Checked
  check_op054_ext_code s = check_ext_code (here s).ext_code_access_info s

  unfoldable pub check_op061 : RunnerState → Checked
  check_op061 s =
      if not (is_call_to_entry_point entry_point_address (here s))
        && not (eqb (value_of (here s).value) 0)
      then violates op061 (here s).from s
      else right s

  unfoldable pub check_op054 : (String → Option String) → RunnerState → Checked
  check_op054 function_name s =
      if is_call_to_entry_point entry_point_address (here s)
        && not (includes allowed_methods (known_method function_name (here s).input))
      then violates op054 (here s).from s
      else right s
