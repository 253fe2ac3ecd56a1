-- ===== src/Simulation/Full.antt =====
-- What is known of an operation whose simulation with the tracer gives a result.
use transeptor_bundler.Prelude.{
  ℕ, ◌≤◌, ◌≡◌, ◌⊎◌, inl, inr, refl, ap, ◌∙◌, subst, String, true, includes, Option, none, some,
  arith, if◌then◌else◌,
}
use transeptor_bundler.Types.{UserOperation}
use transeptor_bundler.Errors.{RpcError}
use transeptor_bundler.Outcome.{Either, left, right, flat_map}
use transeptor_bundler.Reputation.Checks.{DepositInfo}
use transeptor_bundler.Erc7562.{Erc7562Call, frame_of, calls_of}
use transeptor_bundler.Simulation.Data.{ValidationData}
use transeptor_bundler.Simulation.Calls.{
  call_at, has_init_call, Coding, expected_inner_handle_op_failures, read_revert,
  parse_tracer_result_calls_for_revert, Stakes, get_stakes, TracedResult, generated,
  generate_validation_result,
}
use transeptor_bundler.Simulation.Ranges.{Within}
use transeptor_bundler.Simulation.Traced.{Validates, generate_validation_result_lem}
use transeptor_bundler.Simulation.Running.{simulation_read, after_revert, full_simulate_validation}

read_revert-right :
    (reason : String) (traced traced' : Erc7562Call)
    → read_revert reason traced ≡ right traced'
    → (includes expected_inner_handle_op_failures reason ≡ true) × (traced ≡ traced')
unfolding read_revert
read_revert-right reason traced traced' h = (ground arith, ground arith)

-- The outermost call did not revert, or only as it does at the end of a simulation.
abbrev pub EndsAsExpected : (String → String) → Erc7562Call → Type 0
EndsAsExpected decode c =
    ((frame_of c).output ≡ none)
    ⊎ ((output : String) × ((frame_of c).output ≡ some output)
        × (includes expected_inner_handle_op_failures (decode output) ≡ true))

parse_tracer_result_calls_for_revert-right :
    (decode : String → String) (c c' : Erc7562Call)
    → parse_tracer_result_calls_for_revert decode c ≡ right c'
    → (c ≡ c') × EndsAsExpected decode c
unfolding parse_tracer_result_calls_for_revert
parse_tracer_result_calls_for_revert-right decode c c' h = by_output (frame_of c).output refl h
  where
    by_output :
        (o : Option String)
        → (frame_of c).output ≡ o
        → ◌≡◌ {A = Either RpcError Erc7562Call}
            (elim o [ none ↦ right c | some output ↦ read_revert (decode output) c ])
            (right c')
        → (c ≡ c') × EndsAsExpected decode c
    by_output none q k = (cc, inl q)
    by_output (some output) q k =
        let (expected, same) = read_revert-right (decode output) c c' k in
        (same, inr (output, q, expected))

module _ (coding : Coding) (get_deposit_info : String → DepositInfo) (op : UserOperation) where
  read_of :
      (r : Either RpcError Erc7562Call) (stakes : Stakes) (result : TracedResult) (c : Erc7562Call)
      → after_revert coding op stakes r ≡ simulation_read (generated result c)
      → (c' : Erc7562Call) × ((r ≡ right c')
          × (generate_validation_result coding op c' stakes ≡ generated result c))
  read_of (left e) stakes result c h = cc
  read_of (right c') stakes result c h = (c', (refl, cc))

  flat_map-right :
      (traced : Either RpcError Erc7562Call) (next : Erc7562Call → Either RpcError Erc7562Call)
      (c' : Erc7562Call)
      → flat_map traced next ≡ right c'
      → (c : Erc7562Call) × ((traced ≡ right c) × (next c ≡ right c'))
  flat_map-right (left e) next c' h = cc
  flat_map-right (right c) next c' h = (c, (refl, h))

  -- A simulation that is read has a trace, which is passed on, and which did not revert but as expected.
  -- The call at the place of the validation, after that of a factory, is one of validateUserOp whose output
  -- is a number of at most 32 bytes, and every time in the range of the result lies in the range of that
  -- output.
  pub full_simulate_validation_lem :
      (traced : Either RpcError Erc7562Call) (result : TracedResult) (c : Erc7562Call)
      → full_simulate_validation coding get_deposit_info op traced
        ≡ simulation_read (generated result c)
      → (traced ≡ right c)
        × EndsAsExpected coding.decode_revert_reason c
        × ((v : Erc7562Call) × ((account : ValidationData) × (call_at
                  (if has_init_call op then 1 else 0)
                  (calls_of c)
                ≡ some v)
              × Validates coding v account
              × ((time : ℕ)
                  → result.valid_after ≤ time
                  → time ≤ result.valid_until
                  → Within time account)))
  unfolding full_simulate_validation
  full_simulate_validation_lem traced result c h =
      let stakes = get_stakes get_deposit_info op.sender op.paymaster op.factory in
      let (c', (passed, made_of)) = read_of _ stakes result c h in
      let (c0, (given, unreverted)) =
        flat_map-right traced (parse_tracer_result_calls_for_revert coding.decode_revert_reason) c'
          passed in
      let (same0, expected) =
        parse_tracer_result_calls_for_revert-right coding.decode_revert_reason c0 c' unreverted in
      let (same1, found) = generate_validation_result_lem coding op c' c stakes result made_of in
      let same : c0 ≡ c = same0 ∙ same1 in
      (
        given ∙ ap right same,
        subst (EndsAsExpected coding.decode_revert_reason) same expected,
        subst
            (λ t.
              (v : Erc7562Call) × ((account : ValidationData) × (call_at
                    (if has_init_call op then 1 else 0) (calls_of t)
                  ≡ some v)
                × Validates coding v account
                × ((time : ℕ)
                    → result.valid_after ≤ time
                    → time ≤ result.valid_until
                    → Within time account)))
            same1 found,
      )
