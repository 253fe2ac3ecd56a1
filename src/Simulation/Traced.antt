-- ===== src/Simulation/Traced.antt =====
-- What the result of a traced validation says of the calls of the trace.
use transeptor_bundler.Prelude.{
  ℕ, ◌^◌, ◌<◌, ◌≤◌, String, ◌==◌, ◌≡◌, refl, sym, ◌∙◌, true, Option, none, some, max, min, arith,
  if◌then◌else◌, Option-cases, inl, inr,
}
use transeptor_bundler.Prelude.Text.{text_take, read_big_int}
use transeptor_bundler.Types.{UserOperation}
use transeptor_bundler.Erc7562.{Erc7562Call, frame_of, calls_of}
use transeptor_bundler.Simulation.Data.{ValidationData, parse_validation_data}
use transeptor_bundler.Simulation.Calls.{
  call_at, has_init_call, ValidationCalls, get_validation_calls, Decoded, value, coded, no_code,
  ◌>>=◌, Coding, input_for, output_of, decode_validate_user_op, decode_validation_data,
  paymaster_data, inner_data, Stakes, TracedResult, decode_calls, generated, type_error, handled,
  generate_validation_result,
}
use transeptor_bundler.Simulation.Ranges.{Within}

-- The call is one of validateUserOp, and what it gave back is a number of at most 32 bytes that packs the
-- data.
abbrev pub Validates : Coding → Erc7562Call → ValidationData → Type 0
Validates coding c account =
    (input : String) × ((output : String) × ((n : ℕ) × ((frame_of c).input ≡ some input)
        × ((text_take 10 input == coding.validate_user_op_selector) ≡ true)
        × ((frame_of c).output ≡ some output)
        × (read_big_int output ≡ some n)
        × (n < 2 ^ 256)
        × (account ≡ parse_validation_data n)))

bound {ℓ κ} :
    {A : Type ℓ} {B : Type κ} (m : Decoded A) (next : A → Decoded B) (b : B)
    → (m >>= next) ≡ value b
    → (a : A) × (m ≡ value a) × (next a ≡ value b)
bound (value a) next b h = (a, refl, h)
bound coded next b h = cc
bound no_code next b h = cc

module _ (coding : Coding) where
  validated :
      (call : Option Erc7562Call) (account : ValidationData)
      → decode_validate_user_op coding call ≡ value account
      → (c : Erc7562Call) × (call ≡ some c) × Validates coding c account
  unfolding decode_validate_user_op decode_validation_data
  validated none account h = cc
  validated (some c) account h =
      let (input, taken, h1) =
        bound (input_for coding.validate_user_op_selector (frame_of c)) _ account h in
      let (output, given, h2) = bound (output_of (frame_of c)) _ account h1 in
      let (i, q, fits) = from_input (frame_of c).input input taken in
      let (n, number, small, data_) = from_number (read_big_int output) account h2 in
      (
        c,
        refl,
        (
          i,
          (
            output,
            (n, q, fits, from_output (frame_of c).output output given, number, small, data_),
          ),
        ),
      )
    where
      from_number :
          (o : Option ℕ) (account : ValidationData)
          → decode_validation_data o ≡ value account
          → (n : ℕ) × (o ≡ some n) × (n < 2 ^ 256) × (account ≡ parse_validation_data n)
      from_number none account h = cc
      from_number (some n) account h = (n, refl, ground arith, ground arith)

      from_input :
          (o : Option String) (input : String)
          → ◌≡◌ {A = Decoded String}
              (elim o [
                | none ↦ no_code
                | some i ↦
                    if text_take 10 i == coding.validate_user_op_selector then value i else no_code
              ])
              (value input)
          → (i : String) × (o ≡ some i)
            × ((text_take 10 i == coding.validate_user_op_selector) ≡ true)
      from_input none input h = cc
      from_input (some i) input h = (i, refl, ground arith)

      from_output :
          (o : Option String) (output : String)
          → ◌≡◌ {A = Decoded String}
              (elim o [ none ↦ no_code | some out ↦ value out ])
              (value output)
          → o ≡ some output
      from_output none output h = cc
      from_output (some out) output h = cc

  from_calls :
      (calls : ValidationCalls) (stakes : Stakes) (result : TracedResult)
      → decode_calls coding calls stakes ≡ value result
      → (account : ValidationData) × (decode_validate_user_op coding calls.validation_call
          ≡ value account)
        × ((time : ℕ) → result.valid_after ≤ time → time ≤ result.valid_until → Within time account)
  unfolding decode_calls
  from_calls calls stakes result h =
      let (account, first, h1) =
        bound (decode_validate_user_op coding calls.validation_call) _ result h in
      let (paymaster, second, h2) =
        bound (paymaster_data coding calls.paymaster_call) _ result h1 in
      let (inner, third, h3) = bound (inner_data coding calls.inner_call) _ result h2 in
      let from : max account.valid_after paymaster.1.valid_after ≡ result.valid_after = cc in
      let to : min account.valid_until paymaster.1.valid_until ≡ result.valid_until = cc in
      (account, first, λ time begun ongoing. (omega (arith, from), omega (arith, to)))

  from_handled :
      (decoded : Decoded TracedResult) (traced traced' : Erc7562Call) (result : TracedResult)
      → handled decoded traced ≡ generated result traced'
      → (decoded ≡ value result) × (traced ≡ traced')
  from_handled (value r) traced traced' result h = (cc, cc)
  from_handled coded traced traced' result h = cc
  from_handled no_code traced traced' result h = cc

  validation_call_lem :
      (op : UserOperation) (traced : Erc7562Call)
      → (get_validation_calls op traced).validation_call
        ≡ call_at (if has_init_call op then 1 else 0) (calls_of traced)
  unfolding get_validation_calls
  validation_call_lem op traced = elim (Option-cases op.paymaster) [
    | inl absent ↦ rw absent refl
    | inr (paymaster, present) ↦ rw present refl
  ]

  -- A result comes from the first call of the entry point, or from the second if an account is made or
  -- initialised first: it is a call of validateUserOp that gave an output, and every time in the range
  -- of the result lies in the range that the account gave. The trace is passed on as it is.
  pub generate_validation_result_lem :
      (op : UserOperation) (traced traced' : Erc7562Call) (stakes : Stakes) (result : TracedResult)
      → generate_validation_result coding op traced stakes ≡ generated result traced'
      → (traced ≡ traced')
        × ((c : Erc7562Call) × ((account : ValidationData) × (call_at
                  (if has_init_call op then 1 else 0)
                  (calls_of traced)
                ≡ some c)
              × Validates coding c account
              × ((time : ℕ)
                  → result.valid_after ≤ time
                  → time ≤ result.valid_until
                  → Within time account)))
  unfolding generate_validation_result
  generate_validation_result_lem op traced traced' stakes result h =
      let calls = get_validation_calls op traced in
      let (decoded, same) =
        from_handled (decode_calls coding calls stakes) traced traced' result h in
      let (account, first, range) = from_calls calls stakes result decoded in
      let (c, there, validates) = validated calls.validation_call account first in
      (same, (c, (account, sym (validation_call_lem op traced) ∙ there, validates, range)))

  -- If the trace has no call at the place of the validation, the handler of errors throws one itself.
  pub generate_validation_result_missing :
      (op : UserOperation) (traced : Erc7562Call) (stakes : Stakes)
      → call_at (if has_init_call op then 1 else 0) (calls_of traced) ≡ none
      → generate_validation_result coding op traced stakes ≡ type_error
  unfolding generate_validation_result decode_calls decode_validate_user_op
  generate_validation_result_missing op traced stakes h =
      rw (validation_call_lem op traced ∙ h) refl
