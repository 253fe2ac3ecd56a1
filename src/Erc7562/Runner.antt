-- ===== src/Erc7562/Runner.antt =====
-- sim/erc7562-parser.ts: the calls of a trace are taken from a stack, the last one first, and each is
-- checked against the rules. The states on the stack share the list of addresses and the storage map,
-- so each goes on with those of the state that was checked last.
pub mod Rulebook
pub mod Walk
pub mod Safety
use transeptor_bundler.Prelude.{
  ℕ, zero, suc, ◌+◌, String, Bool, true, false, ◌&&◌, ◌==◌, List, [], ◌∷◌, ◌++◌, Option, none, some,
  if◌then◌else◌,
}
use transeptor_bundler.Prelude.Text.{to_lower_case}
use mathlib.Core.Option
use transeptor_bundler.Types.{UserOperation, StorageMap, ValidationResult}
use transeptor_bundler.Outcome.{Either, left, right, flat_map}
use transeptor_bundler.Erc7562.{
  CallFrameType, delegatecall, Frame, Erc7562Call, made, Calls, nil, cons, frame_of, calls_of,
  Erc7562Violation, ParserError, no_calls_from_entry_point, RunnerState, here, init, Checked,
  detect_entity_change,
}
use transeptor_bundler.Erc7562.Rules.{
  check_op011, check_op020, check_op031, check_op041, check_op054, check_op054_ext_code,
  check_op061, check_op062_allowed_precompiles, check_op080, check_erep050,
}
use transeptor_bundler.Erc7562.Access.{Hashing, check_storage}

-- The address of the entry point is in lower case.
pub record ParserConfig : Type 0 where
  pub entry_point_address : String
  pub function_name : String → Option String
  pub hashing : Hashing

unfoldable pub is_erc7562_calls : RunnerState → Checked
is_erc7562_calls s = elim (calls_of s.erc7562_call) [
  | nil ↦ left no_calls_from_entry_point
  | cons c cs ↦ right s
]

-- The shared parts are those of the state that was checked last.
abbrev pub share : RunnerState → RunnerState → RunnerState
share last s = record s {
  contract_addresses = last.contract_addresses;
  storage_map = last.storage_map;
}

abbrev pub enter : RunnerState → RunnerState
enter s = record s { contract_addresses = s.contract_addresses ++ (to_lower_case (here s).to ∷ []) }

abbrev pub new_context : CallFrameType → String → String → String
new_context delegatecall outer to = outer
new_context _ outer to = to

abbrev pub child : RunnerState → Erc7562Call → RunnerState
child s c = record s {
  erc7562_call = c;
  delegatecall_storage_address =
      new_context (frame_of c).type s.delegatecall_storage_address (frame_of c).to;
  recursion_depth = s.recursion_depth + 1;
}

-- The calls of a state are pushed in their order.
unfoldable pub push_calls : Calls → RunnerState → List RunnerState → List RunnerState
push_calls nil s stack = stack
push_calls (cons c cs) s stack = push_calls cs s (child s c ∷ stack)

-- The number of calls of a trace.
unfoldable mutual
  pub size : Erc7562Call → ℕ
  size (made frame cs) = suc (size_calls cs)

  pub size_calls : Calls → ℕ
  size_calls nil = 0
  size_calls (cons c cs) = size_calls cs + size c

-- What follows a check, unless it gave an error.
abbrev pub and_then : Checked → (RunnerState → Option Checked) → Option Checked
and_then (left e) next = some (left e)
and_then (right s) next = next s

pub record ValidationResults : Type 0 where
  pub storage_map : StorageMap
  pub rule_violations : List Erc7562Violation
  pub contract_addresses : List String

module _ (config : ParserConfig) where
  -- An "innerHandleOp" that slipped into the trace
  abbrev pub is_self_call : Frame → Bool
  is_self_call frame =
      to_lower_case frame.to == config.entry_point_address
      && frame.from == config.entry_point_address

  unfoldable pub check_rules : Checked → Checked
  check_rules detected =
      let ep = config.entry_point_address in
      let c1 = flat_map detected (check_op011 ep) in
      let c2 = flat_map c1 check_op020 in
      let c3 = flat_map c2 check_op031 in
      let c4 = flat_map c3 (check_op041 ep) in
      let c5 = flat_map c4 (check_op054 ep config.function_name) in
      let c6 = flat_map c5 (check_op054_ext_code ep) in
      let c7 = flat_map c6 (check_op061 ep) in
      let c8 = flat_map c7 check_op062_allowed_precompiles in
      let c9 = flat_map c8 check_op080 in
      let c10 = flat_map c9 check_erep050 in flat_map c10 (check_storage config.hashing ep)

  unfoldable pub check_call : RunnerState → Checked
  unfolding check_rules
  check_call s = check_rules (detect_entity_change config.entry_point_address s)

  -- The loop, with fuel; `none` means that the fuel ran out.
  unfoldable pub run : ℕ → List RunnerState → RunnerState → Option Checked
  unfolding push_calls
  run zero [] result = some (right result)
  run zero (s ∷ stack) result = none
  run (suc fuel) [] result = some (right result)
  run (suc fuel) (s ∷ stack) result =
      let skipped = run fuel stack result in
      let checked =
        and_then (check_call (enter (share result s))) (λ updated.
          run fuel (push_calls (calls_of updated.erc7562_call) updated stack) updated) in
      if is_self_call (here s) then skipped else checked

  -- Each call is popped once.
  unfoldable pub runner : RunnerState → Option Checked
  unfolding run
  runner s = run (size s.erc7562_call) (s ∷ []) s

  abbrev pub results_of : Checked → Either ParserError ValidationResults
  results_of checked = flat_map checked (λ s. right (record {
    storage_map = s.storage_map;
    rule_violations = s.rule_violations;
    contract_addresses = s.contract_addresses;
  }))

  abbrev run_checked : Checked → Option Checked
  run_checked (left e) = some (left e)
  run_checked (right s) = runner s

  unfoldable pub parse_tracer_result :
      UserOperation → Erc7562Call → ValidationResult → Option (Either ParserError ValidationResults)
  unfolding is_erc7562_calls runner
  parse_tracer_result op c result =
      Option.map results_of (run_checked (is_erc7562_calls (init op c result)))
