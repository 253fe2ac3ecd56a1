-- ===== src/Simulation/Calls.antt =====
-- sim/sim.helper.ts: what the calls of a traced simulation are read to say. The coding of calls and
-- results by the interfaces of the contracts is a parameter.
use transeptor_bundler.Prelude.{
  ℕ, ◌+◌, ◌^◌, String, Bool, false, ◌||◌, not, ◌==◌, List, [], ◌∷◌, ltb, includes, max, min, Option,
  none, some, if◌then◌else◌,
}
use mathlib.Core.Option
use transeptor_bundler.Prelude.Text.{starts_with, text_take, text_length, read_big_int}
use transeptor_bundler.Types.{UserOperation, StakeInfo, PaymasterValidationInfo}
use transeptor_bundler.Errors.{
  RpcError, invalid_account_signature, invalid_paymaster_signature, reverted,
}
use transeptor_bundler.Outcome.{Either, left, right}
use transeptor_bundler.Erc7562.{Frame, Erc7562Call, Calls, nil, cons, frame_of, calls_of}
use transeptor_bundler.Reputation.Checks.{DepositInfo}
use transeptor_bundler.Validation.Input.{is_marker}
use transeptor_bundler.Simulation.Data.{ValidationData, max_uint_48, parse_validation_data}

abbrev pub expected_inner_handle_op_failures : List String
expected_inner_handle_op_failures =
    "FailedOp(0,\"AA95 out of gas\")" ∷ "Error(AA90 invalid beneficiary)" ∷ []

unfoldable pub read_revert : String → Erc7562Call → Either RpcError Erc7562Call
read_revert reason traced =
    if starts_with "FailedOp(0,\"AA24" reason
    then left invalid_account_signature
    else if starts_with "FailedOp(0,\"AA34" reason
    then left invalid_paymaster_signature
    else if not (includes expected_inner_handle_op_failures reason)
    then left (reverted reason)
    else right traced

unfoldable pub parse_tracer_result_calls_for_revert :
    (String → String) → Erc7562Call → Either RpcError Erc7562Call
unfolding read_revert
parse_tracer_result_calls_for_revert decode_revert_reason traced = elim (frame_of traced).output [
  | none ↦ right traced
  | some output ↦ read_revert (decode_revert_reason output) traced
]

-- calls[index]
abbrev pub call_at : ℕ → Calls → Option Erc7562Call
call_at index nil = none
call_at ℕ.zero (cons c cs) = some c
call_at (ℕ.suc index) (cons c cs) = call_at index cs

pub record ValidationCalls : Type 0 where
  pub validation_call : Option Erc7562Call
  pub paymaster_call : Option Erc7562Call
  pub inner_call : Option Erc7562Call

-- Whether the entry point calls a factory, or initialises an account of EIP-7702, first.
abbrev pub has_init_call : UserOperation → Bool
has_init_call op = elim op.factory [
  | none ↦ false
  | some factory ↦
      not (is_marker (some factory))
      || elim op.factory_data [ none ↦ false | some payload ↦ ltb 0 (text_length payload) ]
]

unfoldable pub get_validation_calls : UserOperation → Erc7562Call → ValidationCalls
get_validation_calls op traced =
    let calls = calls_of traced in
    let first : ℕ = if has_init_call op then 1 else 0 in
    elim op.paymaster [
      | none ↦ record {
        validation_call = call_at first calls;
        paymaster_call = none;
        inner_call = call_at (first + 1) calls;
      }
      | some paymaster ↦ record {
        validation_call = call_at first calls;
        paymaster_call = call_at (first + 1) calls;
        inner_call = call_at (first + 2) calls;
      }
    ]

-- What decoding a call gives: an error of the interfaces of the contracts has a code, every other error
-- has none.
pub data Decoded {ℓ} (A : Type ℓ) : Type ℓ where
  value : A → Decoded A
  coded no_code : Decoded A

infixl 5 ◌>>=◌
abbrev pub ◌>>=◌ {ℓ κ} : {A : Type ℓ} {B : Type κ} → Decoded A → (A → Decoded B) → Decoded B
value a >>= next = next a
coded >>= next = coded
no_code >>= next = no_code

pub record Coding : Type 0 where
  pub validate_user_op_selector : String
  pub validate_paymaster_user_op_selector : String
  pub inner_handle_op_selector : String
  pub decode_paymaster_result : String → Decoded (String × ℕ)
  pub decode_op_info : String → Decoded (ℕ × ℕ)
  pub decode_revert_reason : String → String

-- The input of a call, if it starts with the signature of a method.
abbrev pub input_for : String → Frame → Decoded String
input_for selector frame = elim frame.input [
  | none ↦ no_code
  | some input ↦ if text_take 10 input == selector then value input else no_code
]

abbrev pub output_of : Frame → Decoded String
output_of frame = elim frame.output [ none ↦ no_code | some output ↦ value output ]

-- A call that is not there has no input: the access fails.
abbrev frame_if : Option Erc7562Call → Decoded Frame
frame_if none = no_code
frame_if (some c) = value (frame_of c)

-- parseValidationData on what BigInt reads: no number throws an error of the language, and a number of
-- more than 32 bytes cannot be padded, which is an error with a code.
unfoldable pub decode_validation_data : Option ℕ → Decoded ValidationData
decode_validation_data none = no_code
decode_validation_data (some n) = if ltb n (2 ^ 256) then value (parse_validation_data n) else coded

unfoldable pub decode_validate_user_op : Coding → Option Erc7562Call → Decoded ValidationData
unfolding decode_validation_data
decode_validate_user_op coding c = do
  frame ← frame_if c
  input ← input_for coding.validate_user_op_selector frame
  output ← output_of frame
  decode_validation_data (read_big_int output)

pub decode_validate_paymaster_user_op :
    Coding → Option Erc7562Call → Decoded (String × ValidationData)
unfolding decode_validation_data
decode_validate_paymaster_user_op coding c = do
  frame ← frame_if c
  input ← input_for coding.validate_paymaster_user_op_selector frame
  output ← output_of frame
  result ← coding.decode_paymaster_result output
  packed ← decode_validation_data (some result.1)
  value (result.0, packed)

pub decode_inner_handle_op : Coding → Option Erc7562Call → Decoded (ℕ × ℕ)
decode_inner_handle_op coding c = do
  frame ← frame_if c
  input ← input_for coding.inner_handle_op_selector frame
  coding.decode_op_info input

pub record Stakes : Type 0 where
  pub sender : StakeInfo
  pub paymaster : Option StakeInfo
  pub factory : Option StakeInfo

abbrev stake_info : (String → DepositInfo) → String → StakeInfo
stake_info get_deposit_info addr = record {
  addr = addr;
  stake = (get_deposit_info addr).stake;
  unstake_delay_sec = (get_deposit_info addr).unstake_delay_sec;
}

unfoldable pub get_stakes : (String → DepositInfo) → String → Option String → Option String → Stakes
get_stakes get_deposit_info sender paymaster factory = record {
  sender = stake_info get_deposit_info sender;
  paymaster = Option.map (stake_info get_deposit_info) paymaster;
  factory = if is_marker factory then none else Option.map (stake_info get_deposit_info) factory;
}

-- The result of a traced validation; without an inner call the gas and the prefund are not there.
pub record TracedResult : Type 0 where
  pub sig_failed : Bool
  pub valid_after : ℕ
  pub valid_until : ℕ
  pub op_info : Option (ℕ × ℕ)
  pub sender_info : StakeInfo
  pub paymaster_info : Option PaymasterValidationInfo
  pub factory_info : Option StakeInfo

abbrev no_paymaster_data : ValidationData
no_paymaster_data = record { aggregator = 0; valid_after = 0; valid_until = max_uint_48 }

abbrev pub paymaster_data : Coding → Option Erc7562Call → Decoded (Option String × ValidationData)
paymaster_data coding none = value (none, no_paymaster_data)
paymaster_data coding (some c) = do
  result ← decode_validate_paymaster_user_op coding (some c)
  value (some result.0, result.1)

abbrev pub inner_data : Coding → Option Erc7562Call → Decoded (Option (ℕ × ℕ))
inner_data coding none = value none
inner_data coding (some c) = do info ← decode_inner_handle_op coding (some c); value (some info)

-- What is in the `try`.
unfoldable pub decode_calls : Coding → ValidationCalls → Stakes → Decoded TracedResult
unfolding decode_validate_user_op decode_validate_paymaster_user_op decode_inner_handle_op
decode_calls coding calls stakes = do
  account ← decode_validate_user_op coding calls.validation_call
  paymaster ← paymaster_data coding calls.paymaster_call
  inner ← inner_data coding calls.inner_call
  value (record {
    sig_failed = false;
    valid_after = max account.valid_after paymaster.1.valid_after;
    valid_until = min account.valid_until paymaster.1.valid_until;
    op_info = inner;
    sender_info = stakes.sender;
    paymaster_info =
        Option.map (λ info. record { info = info; context = paymaster.0 }) stakes.paymaster;
    factory_info = stakes.factory;
  })

-- The handler turns an error with a code into a result. For any other one `decodeErrorReason` reads a
-- field of `error.error`, which is not there: that error is thrown.
pub data Generated : Type 0 where
  generated : TracedResult → Erc7562Call → Generated
  decoding_failed type_error : Generated

abbrev pub handled : Decoded TracedResult → Erc7562Call → Generated
handled (value result) traced = generated result traced
handled coded traced = decoding_failed
handled no_code traced = type_error

unfoldable pub generate_validation_result :
    Coding → UserOperation → Erc7562Call → Stakes → Generated
unfolding decode_calls get_validation_calls
generate_validation_result coding op traced stakes =
    handled (decode_calls coding (get_validation_calls op traced) stakes) traced
