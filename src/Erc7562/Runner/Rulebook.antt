-- ===== src/Erc7562/Runner/Rulebook.antt =====
-- All the rules of a call together.
use transeptor_bundler.Prelude.{
  String, ◌≡◌, inl, inr, refl, sym, ◌∙◌, subst, false, ◌==◌, List, [], ◌∷◌, All, arith, Bool-cases,
}
use transeptor_bundler.Prelude.Text.{to_lower_case}
use transeptor_bundler.Types.{UserOperation}
use transeptor_bundler.Outcome.{left, right}
use transeptor_bundler.Erc7562.{
  ParserError, RunnerState, here, Checked, Frame, from_outside, find_entity, detect_entity_change,
}
use transeptor_bundler.Erc7562.Rules.Meaning.{
  Decides, Decides-map, flat_map-Decides, NoBannedOpcode, CreationAllowed, HasCode,
  EntryPointCallAllowed, NoExtCodeOfEntryPoint, NoValue, PrecompilesAllowed, BalanceIfStaked,
  ContextIfStaked, check_op011-Decides, check_op020-Decides, check_op031-Decides,
  check_op041-Decides, check_op054-Decides, check_op054_ext_code-Decides, check_op061-Decides,
  check_op062-Decides, check_op080-Decides, check_erep050-Decides,
}
use transeptor_bundler.Erc7562.Access.{all_slots, note_slot}
use transeptor_bundler.Erc7562.Access.Noting.{noted, note_slots}
use transeptor_bundler.Erc7562.Access.Meaning.{StorageAllowed, check_storage-Decides}
use transeptor_bundler.Erc7562.Runner.{ParserConfig, check_rules, check_call}

pub right_inj : (s t : RunnerState) → ◌≡◌ {A = Checked} (right s) (right t) → s ≡ t
right_inj s t h = cc

pub left_right : {e : ParserError} {t : RunnerState} → ◌≡◌ {A = Checked} (left e) (right t) → ⊥
left_right h = cc

-- What the checks leave of a state when they pass it.
passed_of :
    {t d : RunnerState} {R : Type 0} (check : Checked)
    → check ≡ right t
    → Decides check d R
    → R × (t ≡ d)
passed_of check h (inl (e, r)) = (r, right_inj _ _ (sym h ∙ e))
passed_of check h (inr ((v, e), no_rule)) = absurd (left_right (sym e ∙ h))

-- The call, the addresses and the operation are the same.
abbrev pub Kept : RunnerState → RunnerState → Type 0
Kept s d =
    (d.erc7562_call ≡ s.erc7562_call)
    × (d.contract_addresses ≡ s.contract_addresses)
    × (d.user_op ≡ s.user_op)

Kept-trans : (s d t : RunnerState) → Kept s d → Kept d t → Kept s t
Kept-trans s d t (a, b, c) (a', b', c') = (a' ∙ a, b' ∙ b, c' ∙ c)

abbrev pub Keeps : RunnerState → Checked → Type 0
Keeps s check = (d : RunnerState) → check ≡ right d → Kept s d

find_entity-Keeps :
    (ep : String) (frame : Frame) (op : UserOperation) (s : RunnerState)
    → Keeps s (find_entity ep frame op s)
unfolding find_entity
find_entity-Keeps ep frame op s d h = (ground arith, ground arith, ground arith)

module _ (config : ParserConfig) where
  -- Every rule, for the state in which a call is checked.
  pub record FollowsRules (s : RunnerState) : Type 0 where
    pub opcodes : NoBannedOpcode config.entry_point_address config.function_name s
    pub gas_left : (here s).out_of_gas ≡ false
    pub creation : CreationAllowed config.entry_point_address config.function_name s
    pub deployed :
        All (HasCode config.entry_point_address config.function_name s) (here s).contract_size
    pub entry_point_calls : EntryPointCallAllowed config.entry_point_address config.function_name s
    pub ext_code : NoExtCodeOfEntryPoint config.entry_point_address config.function_name s
    pub no_value : NoValue config.entry_point_address config.function_name s
    pub precompiles : PrecompilesAllowed config.entry_point_address config.function_name s
    pub balance : BalanceIfStaked config.entry_point_address config.function_name s
    pub context : ContextIfStaked config.entry_point_address config.function_name s
    pub storage : StorageAllowed config.hashing config.entry_point_address s

  check_rules-Decides :
      (s : RunnerState)
      → Decides
          (check_rules config (right s))
          (noted config.hashing config.entry_point_address s)
          (FollowsRules s)
  unfolding check_rules
  check_rules-Decides s =
      let ep = config.entry_point_address in
      let fn = config.function_name in
      let d2 =
        flat_map-Decides _ _ s s (check_op011-Decides ep fn s) (check_op020-Decides ep fn s) in
      let d3 = flat_map-Decides _ _ s s d2 (check_op031-Decides ep fn s) in
      let d4 = flat_map-Decides _ _ s s d3 (check_op041-Decides ep fn s) in
      let d5 = flat_map-Decides _ _ s s d4 (check_op054-Decides ep fn s) in
      let d6 = flat_map-Decides _ _ s s d5 (check_op054_ext_code-Decides ep fn s) in
      let d7 = flat_map-Decides _ _ s s d6 (check_op061-Decides ep fn s) in
      let d8 = flat_map-Decides _ _ s s d7 (check_op062-Decides ep fn s) in
      let d9 = flat_map-Decides _ _ s s d8 (check_op080-Decides ep fn s) in
      let d10 = flat_map-Decides _ _ s s d9 (check_erep050-Decides ep fn s) in
      Decides-map _ _
        (λ p. record {
          opcodes = p.0.0.0.0.0.0.0.0.0.0;
          gas_left = p.0.0.0.0.0.0.0.0.0.1;
          creation = p.0.0.0.0.0.0.0.0.1;
          deployed = p.0.0.0.0.0.0.0.1;
          entry_point_calls = p.0.0.0.0.0.0.1;
          ext_code = p.0.0.0.0.0.1;
          no_value = p.0.0.0.0.1;
          precompiles = p.0.0.0.1;
          balance = p.0.0.1;
          context = p.0.1;
          storage = p.1;
        })
        (λ r. (
          (
            (
              (
                (
                  (
                    ((((r.opcodes, r.gas_left), r.creation), r.deployed), r.entry_point_calls),
                    r.ext_code,
                  ),
                  r.no_value,
                ),
                r.precompiles,
              ),
              r.balance,
            ),
            r.context,
          ),
          r.storage,
        ))
        (flat_map-Decides _ _ s _ d10 (check_storage-Decides config.hashing ep s).0)

  pub check_call_passed :
      (s t : RunnerState)
      → check_call config s ≡ right t
      → (d : RunnerState) × (detect_entity_change config.entry_point_address s ≡ right d)
        × FollowsRules d
        × (t ≡ noted config.hashing config.entry_point_address d)
  unfolding check_call check_rules
  check_call_passed s t h = by_detected (detect_entity_change config.entry_point_address s) refl h
    where
      by_detected :
          (checked : Checked)
          → detect_entity_change config.entry_point_address s ≡ checked
          → check_rules config checked ≡ right t
          → (d : RunnerState) × (detect_entity_change config.entry_point_address s ≡ right d)
            × FollowsRules d
            × (t ≡ noted config.hashing config.entry_point_address d)
      by_detected (left e) q k = absurd (left_right k)
      by_detected (right d) q k =
          let (r, same) = passed_of _ k (check_rules-Decides d) in (d, q, r, same)

  pub detect_entity_change-Keeps :
      (s : RunnerState) → Keeps s (detect_entity_change config.entry_point_address s)
  unfolding detect_entity_change
  detect_entity_change-Keeps s d h =
      elim (Bool-cases (from_outside config.entry_point_address (here s))) [
        | inl outside ↦
            let same = right_inj s d (rw outside at h) in rw (sym same) (refl, refl, refl)
        | inr inside ↦ find_entity-Keeps _ (here s) s.user_op s d (rw inside at h)
      ]

  note_slots-Kept :
      (slots : List String) (d : RunnerState) → Kept d (note_slots config.hashing slots d)
  unfolding note_slot
  note_slots-Kept [] d = (refl, refl, refl)
  note_slots-Kept (slot ∷ slots) d = note_slots-Kept slots (note_slot config.hashing slot d)

  noted-Kept : (d : RunnerState) → Kept d (noted config.hashing config.entry_point_address d)
  noted-Kept d = elim (Bool-cases (to_lower_case (here d).to == config.entry_point_address)) [
    | inl inside ↦ rw inside (refl, refl, refl)
    | inr outside ↦ rw outside (note_slots-Kept (all_slots (here d).accessed_slots) d)
  ]

  pub check_call-Keeps : (s : RunnerState) → Keeps s (check_call config s)
  check_call-Keeps s t h =
      let (d, q, r, same) = check_call_passed s t h in
      Kept-trans s d t (detect_entity_change-Keeps s d q)
        (subst (λ x. Kept d x) (sym same) (noted-Kept d))
