-- ===== src/Examples/Simulations.antt =====
-- Tests of what a simulation is read to say.
use transeptor_bundler.Prelude.{String, ℕ, ◌≤◌, ◌≡◌, refl, false, none, some, arith, if◌then◌else◌}
use transeptor_bundler.Prelude.Text.{read_big_int}
use transeptor_bundler.Erc7562.{Erc7562Call, made, nil, cons, calls_of}
use transeptor_bundler.Simulation.Data.{ValidationData, parse_validation_data, max_uint_48}
use transeptor_bundler.Simulation.Calls.{
  call_at, has_init_call, get_validation_calls, value, coded, no_code, Coding,
  decode_validate_user_op, decode_validation_data, decode_calls, TracedResult, generated,
  generate_validation_result,
}
use transeptor_bundler.Simulation.Ranges.{Within, packed, parse_validation_data-packed}
use transeptor_bundler.Errors.{RpcError}
use transeptor_bundler.Outcome.{Either, right}
use transeptor_bundler.Reputation.Checks.{DepositInfo}
use transeptor_bundler.Simulation.Calls.{parse_tracer_result_calls_for_revert, get_stakes}
use transeptor_bundler.Simulation.Running.{simulation_read, full_simulate_validation}
use transeptor_bundler.Simulation.Full.{EndsAsExpected, full_simulate_validation_lem}
use transeptor_bundler.Simulation.Traced.{Validates}
use transeptor_bundler.Examples.{other_op, staked}
use transeptor_bundler.Examples.Traces.{frame}

parse_validation_data-packed_example :
    parse_validation_data (packed 10 0 1)
    ≡ record { aggregator = 1; valid_after = 10; valid_until = max_uint_48 }
parse_validation_data-packed_example =
    parse_validation_data-packed 10 0 1 (omega arith) (omega arith) (omega arith)

abbrev coding : Coding
coding = record {
  validate_user_op_selector = "0xb760faf9";
  validate_paymaster_user_op_selector = "0x52b7512c";
  inner_handle_op_selector = "0x0042dc53";
  decode_paymaster_result = λ output. no_code;
  decode_op_info = λ input. value (30, 40);
  decode_revert_reason = λ output. output;
}

abbrev deposit_info : String → DepositInfo
deposit_info _ = record { stake = 1000; unstake_delay_sec = 86400 }

abbrev validation : Erc7562Call
validation = made (record (frame "0xe9e9e9" "0xc3") { output = some "0x0" }) nil

abbrev entry_point_call : Erc7562Call
entry_point_call = made (frame "0x0" "0xe9e9e9") (cons validation nil)

abbrev traced_result : TracedResult
traced_result = record {
  sig_failed = false;
  valid_after = 0;
  valid_until = max_uint_48;
  op_info = none;
  sender_info = staked "0xc3";
  paymaster_info = none;
  factory_info = none;
}

simulates :
    full_simulate_validation coding deposit_info other_op (right entry_point_call)
    ≡ simulation_read (generated traced_result entry_point_call)
unfolding full_simulate_validation parse_tracer_result_calls_for_revert generate_validation_result
    get_validation_calls get_stakes decode_calls decode_validate_user_op decode_validation_data
    parse_validation_data read_big_int
simulates = refl

-- A call that gave back no number, and one that gave back 33 bytes.
unreadable :
    (decode_validate_user_op coding
        (some (made (record (frame "0xe9e9e9" "0xc3") { output = some "0x" }) nil))
      ≡ no_code)
    × (decode_validate_user_op coding (
          some (
            made
              (record (frame "0xe9e9e9" "0xc3") {
                output =
                    some "0x010000000000000000000000000000000000000000000000000000000000000000";
              })
              nil))
        ≡ coded)
unfolding decode_validate_user_op decode_validation_data read_big_int
unreadable = (refl, refl)

full_simulate_validation_lem_example :
    (◌≡◌ {A = Either RpcError Erc7562Call} (right entry_point_call) (right entry_point_call))
    × EndsAsExpected coding.decode_revert_reason entry_point_call
    × ((v : Erc7562Call) × ((account : ValidationData) × (call_at
              (if has_init_call other_op then 1 else 0)
              (calls_of entry_point_call)
            ≡ some v)
          × Validates coding v account
          × ((time : ℕ)
              → traced_result.valid_after ≤ time
              → time ≤ traced_result.valid_until
              → Within time account)))
full_simulate_validation_lem_example =
    full_simulate_validation_lem coding deposit_info other_op (right entry_point_call) traced_result
      entry_point_call simulates
