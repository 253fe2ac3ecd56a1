-- ===== src/Erc7562/Runner/Safety.antt =====
-- What a trace that the parser accepts is known to be.
use mathlib.Core.List.{append-nil, append_assoc}
use transeptor_bundler.Prelude.{
  ◌<◌, String, ◌≡◌, refl, sym, ap, ◌∙◌, subst, Bool, true, false, ◌==◌, List, [], ◌∷◌, ◌++◌,
  includes, All, some, arith, inl, inr, Bool-cases, if◌then◌else◌,
}
use transeptor_bundler.Prelude.Dict.{keys}
use transeptor_bundler.Prelude.Text.{to_lower_case}
use transeptor_bundler.Types.{UserOperation, ValidationResult}
use transeptor_bundler.Outcome.{Either, left, right, flat_map}
use transeptor_bundler.Erc7562.{
  ContractSize, Frame, Erc7562Call, made, Calls, nil, cons, frame_of, ParserError, RunnerState,
  here, init, Checked, is_precompiled, is_forbidden_precompiled, is_call_to_entry_point,
}
use transeptor_bundler.Erc7562.Opcodes.{banned_op_codes}
use transeptor_bundler.Erc7562.Rules.{allowed_methods, known_method, value_of}
use transeptor_bundler.Erc7562.Rules.Meaning.{NoneOf}
use transeptor_bundler.Erc7562.Runner.{
  ParserConfig, ValidationResults, share, enter, child, size, is_self_call, check_call, runner,
  is_erc7562_calls, results_of, parse_tracer_result,
}
use transeptor_bundler.Erc7562.Runner.Rulebook.{
  FollowsRules, check_call_passed, check_call-Keeps, detect_entity_change-Keeps, right_inj,
}
use transeptor_bundler.Erc7562.Runner.Walk.{walk, walk_calls, runner-walk}

module _ (config : ParserConfig) where
  -- The rules on a call that hold for every entity.
  pub record IsHarmless (op : UserOperation) (frame : Frame) : Type 0 where
    pub opcodes :
        (to_lower_case frame.to == config.entry_point_address) ≡ false
        → NoneOf banned_op_codes frame.used_opcodes
    pub gas_left : frame.out_of_gas ≡ false
    pub deployed :
        All
          (λ (entry : String × ContractSize).
            is_precompiled entry.0 ≡ false
            → (to_lower_case entry.0 == to_lower_case op.sender) ≡ false
            → (to_lower_case entry.0 == config.entry_point_address) ≡ false
            → 2 < entry.1.contract_size)
          frame.contract_size
    pub entry_point_calls :
        is_call_to_entry_point config.entry_point_address frame ≡ true
        → includes allowed_methods (known_method config.function_name frame.input) ≡ true
    pub ext_code :
        All
          (λ address. (to_lower_case address == config.entry_point_address) ≡ false)
          frame.ext_code_access_info
    pub no_value :
        is_call_to_entry_point config.entry_point_address frame ≡ false → value_of frame.value ≡ 0
    pub precompiles :
        All (λ address. is_forbidden_precompiled address ≡ false) (keys frame.contract_size)

  -- A call and the calls below it, where a call of the entry point to itself is left out with its own.
  unfoldable mutual
    pub EveryCall : (Frame → Type 0) → Erc7562Call → Type 0
    EveryCall P (made frame cs) = is_self_call config frame ≡ false → P frame × EveryOf P cs

    pub EveryOf : (Frame → Type 0) → Calls → Type 0
    EveryOf P nil = Unit
    EveryOf P (cons c cs) = EveryCall P c × EveryOf P cs

  -- The called addresses in the order of the visits.
  unfoldable mutual
    pub called : Erc7562Call → List String
    called (made frame cs) =
        if is_self_call config frame then [] else to_lower_case frame.to ∷ called_by cs

    pub called_by : Calls → List String
    called_by nil = []
    called_by (cons c cs) = called_by cs ++ called c

  rules-IsHarmless : (d : RunnerState) → FollowsRules config d → IsHarmless d.user_op (here d)
  rules-IsHarmless d r = record {
    opcodes = r.opcodes;
    gas_left = r.gas_left;
    deployed = r.deployed;
    entry_point_calls = r.entry_point_calls;
    ext_code = r.ext_code;
    no_value = r.no_value;
    precompiles = r.precompiles;
  }

  check_call-IsHarmless :
      (s t : RunnerState) → check_call config s ≡ right t → IsHarmless s.user_op (here s)
  check_call-IsHarmless s t h =
      let (d, q, r, same) = check_call_passed config s t h in
      let kept = detect_entity_change-Keeps config s d q in
      subst (λ c. IsHarmless s.user_op (frame_of c)) kept.0
        (subst (λ o. IsHarmless o (here d)) kept.2 (rules-IsHarmless d r))

  flat_map_right :
      (checked : Checked) (f : RunnerState → Checked) (t : RunnerState)
      → flat_map checked f ≡ right t
      → (u : RunnerState) × (checked ≡ right u) × (f u ≡ right t)
  flat_map_right (left e) f t h = cc
  flat_map_right (right u) f t h = (u, refl, h)

  apart : {b : Bool} → b ≡ true → b ≡ false → ⊥
  apart p q = cc

  mutual
    unfolding walk EveryCall called

    walk-Finds :
        (op : UserOperation) (c : Erc7562Call) (last s t : RunnerState)
        → s.user_op ≡ op
        → walk config c last s ≡ right t
        → EveryCall (IsHarmless op) c × (t.contract_addresses ≡ last.contract_addresses ++ called c)
    walk-Finds op (made frame cs) last s t same h = elim (Bool-cases (is_self_call config frame)) [
      | inl self ↦
          let stays = right_inj last t (rw self at h) in
          (
            (λ other. absurd (apart self other)),
            rw self (ap (λ x. x.contract_addresses) (sym stays) ∙ sym (append-nil _)),
          )
      | inr other ↦
          let x = enter (share last (record s { erc7562_call = made frame cs })) in
          let (u, q, r) = flat_map_right (check_call config x) _ t (rw other at h) in
          let kept = check_call-Keeps config x u q in
          let (below, found) = walk_calls-Finds op cs u u t (kept.2 ∙ same) r in
          (
            (λ _. (subst (λ o. IsHarmless o frame) same (check_call-IsHarmless x u q), below)),
            rw other (
                found
                ∙ ap (λ l. l ++ called_by cs) kept.1
                ∙ append_assoc last.contract_addresses (to_lower_case frame.to ∷ [])
                    (called_by cs)),
          )
    ]

    walk_calls-Finds :
        (op : UserOperation) (cs : Calls) (s last t : RunnerState)
        → s.user_op ≡ op
        → walk_calls config cs s last ≡ right t
        → EveryOf (IsHarmless op) cs
          × (t.contract_addresses ≡ last.contract_addresses ++ called_by cs)
    walk_calls-Finds op nil s last t same h =
        (tt, ap (λ x. x.contract_addresses) (sym (right_inj last t h)) ∙ sym (append-nil _))
    walk_calls-Finds op (cons c cs) s last t same h =
        let (u, q, r) = flat_map_right (walk_calls config cs s last) _ t h in
        let (others, before) = walk_calls-Finds op cs s last u same q in
        let (this, after) = walk-Finds op c u (child s c) t same r in
        (
          (this, others),
          after
              ∙ ap (λ l. l ++ called c) before
              ∙ append_assoc last.contract_addresses (called_by cs) (called c),
        )

  results_right :
      (checked : Checked) (res : ValidationResults)
      → results_of config checked ≡ right res
      → (t : RunnerState) × (checked ≡ right t) × (t.contract_addresses ≡ res.contract_addresses)
  results_right (left e) res h = cc
  results_right (right t) res h = (t, refl, cc)

  -- If the parser accepts a trace, then every call in it is harmless, whichever entity makes it: it uses
  -- no banned opcode unless it is a call of the entry point, does not run out of gas, touches only code that
  -- is deployed (the sender, the entry point and the precompiled contracts aside), calls the entry
  -- point only as allowed and does not inspect its code, sends no value unless it is such a call, and
  -- touches no forbidden precompile. The addresses that the parser returns are those of the calls in the
  -- order of the visits. A call of the entry point to itself is left out, with the calls below it.
  pub parse_tracer_result_safe :
      (op : UserOperation) (c : Erc7562Call) (result : ValidationResult) (res : ValidationResults)
      → parse_tracer_result config op c result ≡ some (right res)
      → EveryCall (IsHarmless op) c × (res.contract_addresses ≡ called c)
  unfolding parse_tracer_result is_erc7562_calls runner init
  parse_tracer_result_safe op (made frame nil) result res h = cc
  parse_tracer_result_safe op (made frame (cons first others)) result res h =
      let c = made frame (cons first others) in
      let s = init op c result in
      let e = rw (runner-walk config s (size c) (omega arith)) at h in
      let (t, q, same) = results_right (walk config c s s) res (some_inj e) in
      let (harmless, found) = walk-Finds op c s s t refl q in (harmless, sym same ∙ found)
    where
      some_inj : {x y : Either ParserError ValidationResults} → some x ≡ some y → x ≡ y
      some_inj p = cc
