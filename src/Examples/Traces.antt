-- ===== src/Examples/Traces.antt =====
-- Tests of the parser of traces.
use transeptor_bundler.Prelude.{
  ◌≡◌, refl, String, false, [], ◌∷◌, none, some, if◌then◌else◌, ◌==◌, arith,
}
use transeptor_bundler.Prelude.Text.{to_lower_case, parse_int, parse_int_hex}
use transeptor_bundler.Prelude.Dict.{get, put}
use transeptor_bundler.Types.{ValidationResult, slots}
use transeptor_bundler.Outcome.{right}
use transeptor_bundler.Erc7562.{
  call, Frame, Erc7562Call, made, nil, cons, zero_address, RunnerState, init, detect_entity_change,
  is_precompiled, is_forbidden_precompiled, is_call_to_entry_point, is_entity_staked,
}
use transeptor_bundler.Erc7562.Opcodes.{used_of}
use transeptor_bundler.Erc7562.Rules.{
  check_op011, check_op020, check_op031, check_op041, check_sizes, lacks_code, check_op054,
  check_op054_ext_code, check_ext_code, check_op061, check_op062_allowed_precompiles,
  check_precompiles, check_op080, check_erep050,
}
use transeptor_bundler.Erc7562.Rules.Meaning.{Decides}
use transeptor_bundler.Erc7562.Access.{check_storage, is_allowed}
use transeptor_bundler.Erc7562.Access.Noting.{noted, HasNoted}
use transeptor_bundler.Erc7562.Access.Meaning.{check_storage-Decides, StorageAllowed}
use transeptor_bundler.Erc7562.Runner.{
  ParserConfig, ValidationResults, parse_tracer_result, run, size, check_call,
}
use transeptor_bundler.Erc7562.Runner.Walk.{walk, runner-walk}
use transeptor_bundler.Erc7562.Runner.Safety.{
  parse_tracer_result_safe, EveryCall, IsHarmless, called,
}
use transeptor_bundler.Examples.{op, staked}

abbrev pub parser : ParserConfig
parser = record {
  entry_point_address = "0xe9e9e9";
  function_name = λ signature. if signature == "0xb760faf9" then some "depositTo" else none;
  hashing = record { zero_pad_value = λ a. a; hexlify = λ a. a; keccak256 = λ a. a };
}

abbrev pub result : ValidationResult
result = record {
  return_info = record {
    pre_op_gas = 30;
    prefund = 40;
    sig_failed = false;
    valid_after = 0;
    valid_until = 100;
  };
  sender_info = staked "0xA1";
  factory_info = none;
  paymaster_info = none;
  aggregator_info = none;
}

abbrev pub frame : String → String → Frame
frame from to = record {
  accessed_slots = record {
    reads = none;
    transient_reads = none;
    transient_writes = none;
    writes = none;
  };
  contract_size = [];
  error = none;
  ext_code_access_info = [];
  from = from;
  gas = "0x10";
  gas_used = "0x10";
  input = some "0xb760faf900";
  out_of_gas = false;
  output = none;
  to = to;
  type = call;
  used_opcodes = ("0x54", 1) ∷ [];
  value = none;
  keccak = none;
}

-- A call of the account, which reads a slot of its own.
abbrev account_frame : Frame
account_frame = record (frame "0xe9e9e9" "0xa1") {
  accessed_slots = record {
    reads = some (("0x5", "0x0" ∷ []) ∷ []);
    transient_reads = none;
    transient_writes = none;
    writes = none;
  };
  contract_size = ("0xe9e9e9", record { contract_size = 900; opcode = 241 }) ∷ [];
}

-- The entry point calls the account, which pays its deposit.
abbrev pub trace : Erc7562Call
trace = made (frame zero_address "0xe9e9e9") (
    cons
      (made account_frame
        (cons (made (record (frame "0xa1" "0xe9e9e9") { value = some 7 }) nil) nil))
      nil)

abbrev pub accepted : ValidationResults
accepted = record {
  storage_map = ("0xa1", slots (("0x5", "") ∷ [])) ∷ [];
  rule_violations = [];
  contract_addresses = "0xe9e9e9" ∷ "0xa1" ∷ "0xe9e9e9" ∷ [];
}

pub accepts : parse_tracer_result parser op trace result ≡ some (right accepted)
unfolding parse_tracer_result check_call check_op011 check_op020 check_op031 check_op041 check_sizes
    lacks_code check_op054 check_op054_ext_code check_ext_code check_op061
    check_op062_allowed_precompiles check_precompiles check_op080 check_erep050 check_storage
    detect_entity_change is_entity_staked is_precompiled is_forbidden_precompiled
    is_call_to_entry_point used_of size to_lower_case parse_int parse_int_hex init get put
    is_allowed
accepts = refl

parse_tracer_result_safe_example :
    EveryCall parser (IsHarmless parser op) trace
    × (accepted.contract_addresses ≡ called parser trace)
parse_tracer_result_safe_example = parse_tracer_result_safe parser op trace result accepted accepts

runner-walk_example :
    run parser 3 (init op trace result ∷ []) (init op trace result)
    ≡ some (walk parser trace (init op trace result) (init op trace result))
unfolding init size
runner-walk_example = runner-walk parser (init op trace result) 3 (omega arith)

-- The account alone is called, and has read a slot.
abbrev reading : RunnerState
reading = init op (made account_frame nil) result

check_storage-Decides_example :
    Decides
      (check_storage parser.hashing "0xe9e9e9" reading)
      (noted parser.hashing "0xe9e9e9" reading)
      (StorageAllowed parser.hashing "0xe9e9e9" reading)
    × HasNoted "0xe9e9e9" reading (noted parser.hashing "0xe9e9e9" reading)
check_storage-Decides_example = check_storage-Decides parser.hashing "0xe9e9e9" reading

reading_passes :
    check_storage parser.hashing "0xe9e9e9" reading
    ≡ right (record reading { storage_map = ("0xa1", slots (("0x5", "") ∷ [])) ∷ [] })
unfolding check_storage is_allowed is_entity_staked to_lower_case init get put
reading_passes = refl
