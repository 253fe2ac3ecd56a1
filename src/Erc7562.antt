-- ===== src/Erc7562.antt =====
-- types/erc-7562.types.ts and sim/erc7562-parser.ts: the calls of a traced validation, the state in
-- which the rules are checked, and which entity a call belongs to. An absent `calls` is an empty one.
pub mod Opcodes
pub mod Rules
pub mod Access
pub mod Runner
use transeptor_bundler.Prelude.{
  ℕ, String, Bool, true, false, ◌&&◌, ◌||◌, not, ◌==◌, List, [], ◌∷◌, map, includes, Option, none,
  some, leb, ltb, if◌then◌else◌,
}
use transeptor_bundler.Prelude.Dict.{Dict}
use transeptor_bundler.Prelude.Text.{to_lower_case, parse_int_hex}
use mathlib.Core.Option
use transeptor_bundler.Types.{UserOperation, StakeInfo, StorageMap, ValidationResult}
use transeptor_bundler.Errors.{ValidationErrors, opcode_validation}
use transeptor_bundler.Outcome.{Either, left, right}

pub data CallFrameType : Type 0 where
  call delegatecall callcode staticcall create create2 : CallFrameType

pub record ContractSize : Type 0 where
  pub contract_size : ℕ
  pub opcode : ℕ

pub record AccessedSlots : Type 0 where
  pub reads : Option (Dict (List String))
  pub transient_reads : Option (Dict ℕ)
  pub transient_writes : Option (Dict ℕ)
  pub writes : Option (Dict ℕ)

-- A call without the calls that it makes.
pub record Frame : Type 0 where
  pub accessed_slots : AccessedSlots
  pub contract_size : Dict ContractSize
  pub error : Option String
  pub ext_code_access_info : List String
  pub from : String
  pub gas : String
  pub gas_used : String
  pub input : Option String
  pub out_of_gas : Bool
  pub output : Option String
  pub to : String
  pub type : CallFrameType
  pub used_opcodes : Dict ℕ
  pub value : Option ℕ
  pub keccak : Option (List String)

mutual
  pub data Erc7562Call : Type 0 where
    made : Frame → Calls → Erc7562Call

  pub data Calls : Type 0 where
    nil : Calls
    cons : Erc7562Call → Calls → Calls

abbrev pub frame_of : Erc7562Call → Frame
frame_of (made frame calls) = frame

abbrev pub calls_of : Erc7562Call → Calls
calls_of (made frame calls) = calls

pub data AccountAbstractionEntity : Type 0 where
  account paymaster factory aggregator sender_creator : AccountAbstractionEntity
  entry_point native_entry_point native_nonce_manager no_entity : AccountAbstractionEntity

pub data Erc7562Rule : Type 0 where
  op011 op012 op013 op020 op031 op041 op042 op051 op052 op053 op054 op061 op062 : Erc7562Rule
  op070 op080 cod010 sto010 sto021 sto022 sto031 sto032 sto033 sto040 sto041 : Erc7562Rule
  grep010 grep020 grep040 grep050 srep010 srep040 : Erc7562Rule
  erep010 erep015 erep020 erep030 erep040 erep050 : Erc7562Rule

pub record Erc7562Violation : Type 0 where
  pub rule : Erc7562Rule
  pub depth : ℕ
  pub entity : AccountAbstractionEntity
  pub address : String
  pub delegatecall_storage_address : String
  pub error_code : ValidationErrors
  pub call_frame_type : CallFrameType

-- The errors of the parser; the text of a violation is not modelled.
pub data ParserError : Type 0 where
  no_calls_from_entry_point : ParserError
  no_entity_name : String → ParserError
  violation_detected : Erc7562Violation → ParserError

-- Erc7562ParserRunnerState. The states of one run share their lists and their storage map.
pub record RunnerState : Type 0 where
  pub keccak : List String
  pub rule_violations : List Erc7562Violation
  pub current_entity : AccountAbstractionEntity
  pub current_entity_address : String
  pub contract_addresses : List String
  pub storage_map : StorageMap
  pub delegatecall_storage_address : String
  pub recursion_depth : ℕ
  pub validation_result : ValidationResult
  pub user_op : UserOperation
  pub erc7562_call : Erc7562Call

abbrev pub here : RunnerState → Frame
here s = frame_of s.erc7562_call

-- keccak ?? []
abbrev pub or_none : Option (List String) → List String
or_none none = []
or_none (some xs) = xs

unfoldable pub init : UserOperation → Erc7562Call → ValidationResult → RunnerState
init op c result = record {
  keccak = or_none (frame_of c).keccak;
  rule_violations = [];
  current_entity = no_entity;
  current_entity_address = "";
  contract_addresses = [];
  storage_map = [];
  delegatecall_storage_address = (frame_of c).to;
  recursion_depth = 0;
  validation_result = result;
  user_op = op;
  erc7562_call = c;
}

-- A violation of a rule in a state, at an address.
abbrev pub violation : Erc7562Rule → String → RunnerState → Erc7562Violation
violation rule address s = record {
  rule = rule;
  depth = s.recursion_depth;
  entity = s.current_entity;
  address = address;
  delegatecall_storage_address = s.delegatecall_storage_address;
  error_code = opcode_validation;
  call_frame_type = (here s).type;
}

abbrev pub Checked : Type 0
Checked = Either ParserError RunnerState

abbrev pub violates : Erc7562Rule → String → RunnerState → Checked
violates rule address s = left (violation_detected (violation rule address s))

abbrev pub creator_addresses : List String
creator_addresses = map to_lower_case (
    "0x3b3112c4376d037822decff3fe6cd30e1e726517" ∷ "0x449ED7C3e6Fee6a97311d4b55475DF59C44AdD33"
    ∷ [])

pub is_sender_creator : String → Bool
is_sender_creator address = includes creator_addresses (to_lower_case address)

find_creator : List String → String → String
find_creator [] address = ""
find_creator (creator ∷ creators) address =
    if creator == address then creator else find_creator creators address

-- getSenderCreator(address) ?? ''
get_sender_creator : String → String
unfolding find_creator
get_sender_creator address = find_creator creator_addresses (to_lower_case address)

abbrev pub zero_address : String
zero_address = "0x0000000000000000000000000000000000000000"

-- optional?.toLowerCase() === text
abbrev pub is_lower_of : Option String → String → Bool
is_lower_of none text = false
is_lower_of (some a) text = to_lower_case a == text

abbrev pub text_or_empty : Option String → String
text_or_empty none = ""
text_or_empty (some a) = a

module _ (entry_point_address : String) where
  -- Whether a call comes from where an entity may be called.
  from_outside : Frame → Bool
  unfolding is_sender_creator
  from_outside frame =
      not (to_lower_case frame.from == zero_address)
      && not (to_lower_case frame.from == entry_point_address)
      && not (is_sender_creator (to_lower_case frame.from))

  abbrev with_entity : AccountAbstractionEntity → String → RunnerState → Checked
  with_entity entity address s =
      right (record s { current_entity = entity; current_entity_address = address })

  find_entity : Frame → UserOperation → RunnerState → Checked
  unfolding is_sender_creator get_sender_creator
  find_entity frame op s =
      if to_lower_case op.sender == to_lower_case frame.to
      then with_entity account op.sender s
      else if is_sender_creator (to_lower_case frame.from)
          && is_lower_of op.factory (to_lower_case frame.to)
      then with_entity factory (text_or_empty op.factory) s
      else if is_lower_of op.paymaster (to_lower_case frame.to)
      then with_entity paymaster (text_or_empty op.paymaster) s
      else if entry_point_address == to_lower_case frame.to
      then with_entity entry_point entry_point_address s
      else if is_sender_creator (to_lower_case frame.to)
      then with_entity sender_creator (get_sender_creator (to_lower_case frame.to)) s
      else left (no_entity_name frame.to)

  unfoldable pub detect_entity_change : RunnerState → Checked
  unfolding from_outside find_entity
  detect_entity_change s =
      if from_outside (here s) then right s else find_entity (here s) s.user_op s

-- The stake that the entity needs is there.
abbrev pub has_stake : Option StakeInfo → Bool
has_stake none = false
has_stake (some info) = leb 1 info.stake && leb 1 info.unstake_delay_sec

abbrev pub stake_of : ValidationResult → AccountAbstractionEntity → Option StakeInfo
stake_of result account = some result.sender_info
stake_of result factory = result.factory_info
stake_of result paymaster = Option.map (λ p. p.info) result.paymaster_info
stake_of result _ = none

unfoldable pub is_entity_staked : ValidationResult → AccountAbstractionEntity → Bool
is_entity_staked result entity = has_stake (stake_of result entity)

abbrev pub in_range : ℕ → ℕ → Option ℕ → Bool
in_range low high none = false
in_range low high (some n) = ltb n high && leb low n

unfoldable pub is_precompiled : String → Bool
is_precompiled address = in_range 1 1000 (parse_int_hex address)

-- isPrecompiled(address) && intAddress > 9
unfoldable pub is_forbidden_precompiled : String → Bool
unfolding is_precompiled
is_forbidden_precompiled address =
    is_precompiled address && elim (parse_int_hex address) [ none ↦ false | some n ↦ ltb 9 n ]

unfoldable pub is_call_to_entry_point : String → Frame → Bool
is_call_to_entry_point entry_point_address frame =
    to_lower_case frame.to == to_lower_case entry_point_address
    && not (to_lower_case frame.from == to_lower_case entry_point_address)
    && not (to_lower_case frame.from == to_lower_case zero_address)
