-- ===== src/Validation/Accepted.antt =====
-- What is known of an operation that `validateUserOp` accepts.
use mathlib.Core.Option
use transeptor_bundler.Prelude.{
  ℕ, ◌≤◌, ◌≡◌, ◌≢◌, ◌↔◌, refl, sym, ap, ◌∙◌, subst, eq_iff, length, ◌<◌, Bool, true, false, Option,
  none, some, arith,
}
use transeptor_bundler.Types.{
  UserOperation, ReferencedCodeHashes, ValidationResult, ValidateUserOpResult,
}
use transeptor_bundler.Errors.{RpcError}
use transeptor_bundler.Outcome.{Either, left, right, fold, Result, returned, thrown, ◌>>◌}
use transeptor_bundler.Bundle.{get_authorization_list}
use transeptor_bundler.Erc7562.{Erc7562Call, made, nil, cons, ParserError, init}
use transeptor_bundler.Erc7562.Runner.{
  ValidationResults, parse_tracer_result, is_erc7562_calls, runner, size, results_of,
}
use transeptor_bundler.Erc7562.Runner.Walk.{runner-walk}
use transeptor_bundler.Erc7562.Runner.Safety.{
  EveryCall, IsHarmless, called, parse_tracer_result_safe,
}
use transeptor_bundler.Validation.{
  of_rpc, Validated, check_validation_result, Node, check_code, check_authorization_list,
  with_contracts, code_hashes, with_trace, full_val_result_safe_parse, checked_at, simulated,
  validate_user_op,
}

-- A result is in its time range now, and its signature is good.
abbrev pub IsCurrent : ℕ → ValidateUserOpResult → Type 0
IsCurrent now res =
    (res.return_info.sig_failed ≡ false)
    × (res.return_info.valid_after ≤ now)
    × (now ≤ res.return_info.valid_until)

-- The result of a validation is passed on exactly if the signature is good and its time range has begun
-- and is not over: it may end at once, have an aggregator, and leave no gas to verification.
pub check_validation_result_iff :
    (now : ℕ) (res res' : ValidateUserOpResult)
    → (check_validation_result now res ≡ right res') ↔ (IsCurrent now res × (res' ≡ res))
unfolding check_validation_result
check_validation_result_iff now res res' = (there, back)
  where
    there : check_validation_result now res ≡ right res' → IsCurrent now res × (res' ≡ res)
    there h = ((ground arith, ground arith, ground arith), ground arith)

    back : IsCurrent now res × (res' ≡ res) → check_validation_result now res ≡ right res'
    back ((s, a, u), same) = ground arith

-- Two guards before a result.
both_passed {ℓ} :
    {A : Type ℓ} {a : A} (first second : Result (Unit {0})) (value : A)
    → (first >> second >> returned value) ≡ returned a
    → (first ≡ returned tt) × (second ≡ returned tt) × (value ≡ a)
both_passed (returned u) (returned w) value h = (refl, refl, cc)
both_passed (returned u) (thrown e) value h = cc
both_passed (thrown e) second value h = cc

module _ (node : Node) (now : ℕ) (op : UserOperation) where
  parse-some :
      (c : Erc7562Call) (result : ValidationResult)
      → (r : Either ParserError ValidationResults) × (parse_tracer_result node.parser op c result
          ≡ some r)
  unfolding parse_tracer_result is_erc7562_calls runner init
  parse-some (made frame nil) result = (_, refl)
  parse-some (made frame (cons first others)) result =
      let c = made frame (cons first others) in
      let s = init op c result in
      (
        _,
        ap (Option.map (results_of node.parser)) (runner-walk node.parser s (size c) (omega arith)),
      )

  simulated-some :
      (is_unsafe : Bool) (previous : Option ReferencedCodeHashes)
      → (v : Validated) × (simulated node is_unsafe op previous ≡ some v)
  unfolding simulated full_val_result_safe_parse
  simulated-some true previous = (_, refl)
  simulated-some false previous = by_simulation (node.full_simulate_validation op)
    where
      by_simulation :
          (sim : Either RpcError (ValidationResult × Erc7562Call))
          → (v : Validated) × (fold sim
                (λ e. some (left (of_rpc e)))
                (λ r. full_val_result_safe_parse node op previous r.0 r.1)
              ≡ some v)
      by_simulation (left e) = (_, refl)
      by_simulation (right (result, c)) =
          let (r, q) = parse-some c result in
          (_, ap (Option.map (with_trace node result previous)) q)

  -- A validation that does not throw has a result, in each mode.
  pub validate_user_op_total :
      (is_unsafe : Bool) (previous : Option ReferencedCodeHashes)
      → validate_user_op node is_unsafe now op previous ≢ returned none
  unfolding validate_user_op
  validate_user_op_total is_unsafe previous h =
      let (v, q) = simulated-some is_unsafe previous in
      let passed =
        both_passed (check_code node previous)
          (check_authorization_list node.authorities (get_authorization_list op) op) _ h in
      apart (sym (ap (Option.map (checked_at now)) q) ∙ passed.2)
    where
      apart : {v : Validated} → some v ≡ none → ⊥
      apart p = cc

  -- What the parser gave for a trace that led to a result.
  abbrev Traced : Option ReferencedCodeHashes → ValidateUserOpResult → Type 0
  Traced previous res =
      (result : ValidationResult) × ((c : Erc7562Call) × ((parsed : ValidationResults)
          × (node.full_simulate_validation op ≡ right (result, c))
          × (parse_tracer_result node.parser op c result ≡ some (right parsed))
          × (res
              ≡ with_contracts result parsed.storage_map
                  (code_hashes node previous parsed.contract_addresses))))

  from_trace :
      (previous : Option ReferencedCodeHashes) (res : ValidateUserOpResult)
      → simulated node false op previous ≡ some (right res)
      → Traced previous res
  unfolding simulated full_val_result_safe_parse
  from_trace previous res h = by_simulation (node.full_simulate_validation op) refl h
    where
      by_parse :
          (result : ValidationResult) (c : Erc7562Call)
          → node.full_simulate_validation op ≡ right (result, c)
          → (parsed : Option (Either ParserError ValidationResults))
          → parse_tracer_result node.parser op c result ≡ parsed
          → Option.map (with_trace node result previous) parsed ≡ some (right res)
          → Traced previous res
      by_parse result c p none q k = cc
      by_parse result c p (some (left e)) q k = cc
      by_parse result c p (some (right parsed)) q k = (result, (c, (parsed, p, q, cc)))

      by_simulation :
          (sim : Either RpcError (ValidationResult × Erc7562Call))
          → node.full_simulate_validation op ≡ sim
          → fold sim
              (λ e. some (left (of_rpc e)))
              (λ r. full_val_result_safe_parse node op previous r.0 r.1)
            ≡ some (right res)
          → Traced previous res
      by_simulation (left e) p k = cc
      by_simulation (right (result, c)) p k =
          by_parse result c p (parse_tracer_result node.parser op c result) refl k

  checked_at-right :
      (v : Validated) (res : ValidateUserOpResult)
      → checked_at now v ≡ right res
      → (v ≡ right res) × IsCurrent now res
  checked_at-right (left e) res h = cc
  checked_at-right (right r) res h = by_check (check_validation_result now r) refl h
    where
      by_check :
          (checked : Either RpcError ValidateUserOpResult)
          → check_validation_result now r ≡ checked
          → ◌≡◌ {A = Validated} (fold checked (λ e. left (of_rpc e)) right) (right res)
          → (◌≡◌ {A = Validated} (right r) (right res)) × IsCurrent now res
      by_check (left e) q k = cc
      by_check (right r') q k =
          let (current, same) = (check_validation_result_iff now r r').0 q in
          let same' : r ≡ res = cc in (ap right same', subst (IsCurrent now) same' current)

  code_unchanged :
      (previous : Option ReferencedCodeHashes) (p : ReferencedCodeHashes)
      → check_code node previous ≡ returned tt
      → previous ≡ some p
      → 0 < length p.addresses
      → node.run_contract_script p.addresses ≡ p.hash
  unfolding check_code
  code_unchanged previous p h q some_addresses = unchanged (rw q at h)
    where
      unchanged :
          check_code node (some p) ≡ returned tt → node.run_contract_script p.addresses ≡ p.hash
      unchanged k = ground (arith, eq_iff (node.run_contract_script p.addresses) p.hash)

  -- Outside the unsafe mode an accepted operation has a good signature and is in its time range, and every
  -- call that its simulation made is harmless, where the calls of the entry point to itself, with the calls
  -- below them, are left out. In a second validation the code that the first one
  -- touched has the same hash; a first validation refers to the contracts that were called.
  pub validate_user_op_safe :
      (previous : Option ReferencedCodeHashes) (res : ValidateUserOpResult)
      → validate_user_op node false now op previous ≡ returned (some (right res))
      → IsCurrent now res
        × ((p : ReferencedCodeHashes)
            → previous ≡ some p
            → 0 < length p.addresses
            → node.run_contract_script p.addresses ≡ p.hash)
        × ((result : ValidationResult) × ((c : Erc7562Call) × (node.full_simulate_validation op
                ≡ right (result, c))
              × EveryCall node.parser (IsHarmless node.parser op) c
              × (previous ≡ none → res.referenced_contracts.addresses ≡ called node.parser c)))
  unfolding validate_user_op
  validate_user_op_safe previous res h =
      let (code, auth, value) =
        both_passed (check_code node previous)
          (check_authorization_list node.authorities (get_authorization_list op) op) _ h in
      let (v, q) = simulated-some false previous in
      let (same, current) =
        checked_at-right v res (some_inj (sym (ap (Option.map (checked_at now)) q) ∙ value)) in
      let (result, traced) = from_trace previous res (q ∙ ap some same) in
      let (c, (parsed, sim, parse, made_of)) = traced in
      let (harmless, found) = parse_tracer_result_safe node.parser op c result parsed parse in
      (
        current,
        (λ p e some_addresses. code_unchanged previous p code e some_addresses),
        (result, (c, sim, harmless, λ first. addresses c result parsed found made_of first)),
      )
    where
      some_inj : {x y : Validated} → some x ≡ some y → x ≡ y
      some_inj p = cc

      addresses :
          (c : Erc7562Call) (result : ValidationResult) (parsed : ValidationResults)
          → parsed.contract_addresses ≡ called node.parser c
          → res
            ≡ with_contracts result parsed.storage_map
                (code_hashes node previous parsed.contract_addresses)
          → previous ≡ none
          → res.referenced_contracts.addresses ≡ called node.parser c
      addresses c result parsed found made_of first =
          ap (λ r. r.referenced_contracts.addresses) made_of
          ∙ ap (λ p. (code_hashes node p parsed.contract_addresses).addresses) first
          ∙ found
