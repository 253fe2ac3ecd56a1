-- ===== src/Validation/Input/Meaning.antt =====
-- Which input the checks let pass.
use transeptor_bundler.Prelude.{
  ℕ, String, ◌≡◌, ◌≢◌, ◌↔◌, inl, inr, refl, sym, ap, ◌∙◌, subst, Bool, true, false, ◌&&◌, not, ◌==◌,
  [], ◌∷◌, All, Option, none, some, arith, Bool-cases, Option-cases,
}
use transeptor_bundler.Prelude.Text.{to_lower_case}
use transeptor_bundler.Errors.{RpcError, no_user_operation}
use transeptor_bundler.Outcome.{Either, left, right, returned}
use transeptor_bundler.Validation.Input.{
  Object, field, require_address_and_fields, ValidateInputParams, Flags, required_fields,
  check_fields, is_marker, paymaster_fields, check_gas, require_factory, after_fields, check_input,
  check_entry_point, validate_input_parameters,
}
use transeptor_bundler.Validation.Input.Fields.{
  FieldsFit, require_address_and_fields_iff, HasHex, check_fields_iff, after_guards,
}

-- What the entry point of a request must be.
abbrev pub IsSupported : ValidateInputParams → Type 0
IsSupported params =
    (input : String) × (params.entry_point_input ≡ some input)
    × ((input == "") ≡ false)
    × ((to_lower_case input == to_lower_case params.entry_point_address) ≡ true)

module _ (gas : Object → Bool × ℕ) (flags : Flags) where
  abbrev pub OperationFits : Object → Type 0
  OperationFits op =
      All (HasHex op) (required_fields flags)
      × FieldsFit op "paymaster" paymaster_fields ("paymasterData" ∷ [])
      × (is_marker (field "factory" op) ≡ false → FieldsFit op "factory" ("factoryData" ∷ []) [])
      × (flags.pre_verification_gas_check ≡ true → (gas op).0 ≡ true)

  require_factory_iff :
      (op : Object)
      → (require_factory gas flags op ≡ returned tt)
        ↔ (is_marker (field "factory" op) ≡ false → FieldsFit op "factory" ("factoryData" ∷ []) [])
  unfolding require_factory
  require_factory_iff op =
      let parts = require_address_and_fields_iff op "factory" ("factoryData" ∷ []) [] in
      elim (Bool-cases (is_marker (field "factory" op))) [
        | inl marker ↦ rw marker ((λ h k. cc), λ h. refl)
        | inr other ↦ rw other ((λ h k. parts.0 h), λ h. parts.1 (h refl))
      ]

  check_gas_iff :
      (op : Object)
      → (check_gas gas flags op ≡ returned tt)
        ↔ (flags.pre_verification_gas_check ≡ true → (gas op).0 ≡ true)
  unfolding check_gas
  check_gas_iff op = (
    (λ h k. ground arith),
    λ h. elim (Bool-cases flags.pre_verification_gas_check) [
      | inl on ↦ let enough = h on in ground arith
      | inr off ↦ ground arith
    ],
  )

  after_fields_iff :
      (first : Either RpcError (Unit {0})) (op op' : Object)
      → (after_fields gas flags first op ≡ returned (right op')) ↔ (
          (first ≡ right tt)
          × FieldsFit op "paymaster" paymaster_fields ("paymasterData" ∷ [])
          × (is_marker (field "factory" op) ≡ false
              → FieldsFit op "factory" ("factoryData" ∷ []) [])
          × (flags.pre_verification_gas_check ≡ true → (gas op).0 ≡ true)
          × (op ≡ op'))
  unfolding after_fields
  after_fields_iff (left e) op op' = ((λ h. cc), λ h. cc)
  after_fields_iff (right u) op op' =
      let paymaster =
        require_address_and_fields_iff op "paymaster" paymaster_fields ("paymasterData" ∷ []) in
      let guards =
        after_guards
          (require_address_and_fields op "paymaster" paymaster_fields ("paymasterData" ∷ []))
          (require_factory gas flags op) (check_gas gas flags op) (right op) (right op') in
      (
        (λ h.
            let (p, f, g, same) = guards.0 h in
            (
              refl,
              paymaster.0 p,
              (require_factory_iff op).0 f,
              (check_gas_iff op).0 g,
              right_inj same,
            )),
        λ (e, p, f, g, same).
            guards.1
              (paymaster.1 p, (require_factory_iff op).1 f, (check_gas_iff op).1 g, ap right same),
      )
    where
      right_inj : ◌≡◌ {A = Either RpcError Object} (right op) (right op') → op ≡ op'
      right_inj p = cc

  check_input_iff :
      (input : Option Object) (op : Object)
      → (check_input gas flags input ≡ returned (right op)) ↔ ((input ≡ some op) × OperationFits op)
  unfolding check_input
  check_input_iff none op = ((λ h. cc), λ h. cc)
  check_input_iff (some given) op =
      let fields = check_fields_iff given (required_fields flags) in
      let parts = after_fields_iff (check_fields given (required_fields flags)) given op in
      (
        (λ h.
            let (checked, p, f, g, same) = parts.0 h in
            (ap some same, subst OperationFits same (fields.0 checked, p, f, g))),
        λ (q, fits).
            let same : given ≡ op = cc in
            let (checked, p, f, g) = subst OperationFits (sym same) fits in
            parts.1 (fields.1 checked, p, f, g, same),
      )

  check_entry_point_iff :
      (entry : Option String) (params : ValidateInputParams) (given op : Object)
      → params.user_op_input ≡ some given
      → (check_entry_point gas flags entry params ≡ returned (right op)) ↔ (
          ((input : String) × (entry ≡ some input)
            × ((input == "") ≡ false)
            × ((to_lower_case input == to_lower_case params.entry_point_address) ≡ true))
          × (check_input gas flags (some given) ≡ returned (right op)))
  unfolding check_entry_point
  check_entry_point_iff none params given op e = ((λ h. cc), λ h. cc)
  check_entry_point_iff (some input) params given op e = elim (Bool-cases (input == "")) [
    | inl blank ↦ rw blank ((λ h. cc), λ h. cc)
    | inr text ↦
        elim (Bool-cases (to_lower_case input == to_lower_case params.entry_point_address)) [
          | inl same ↦
              rw (text, e, not_refused params.eip7702_support, same)
                ((λ h. ((input, refl, text, same), h)), λ h. h.1)
          | inr other ↦ rw (text, e, not_refused params.eip7702_support, other) ((λ h. cc), λ h. cc)
        ]
  ]
    where
      not_refused : (supported : Bool) → (not supported && false) ≡ false
      not_refused true = refl
      not_refused false = refl

  accepted_only_given :
      (entry : Option String) (params : ValidateInputParams) (op : Object)
      → params.user_op_input ≡ none
      → check_entry_point gas flags entry params ≢ returned (right op)
  unfolding check_entry_point check_input
  accepted_only_given none params op e h = cc
  accepted_only_given (some input) params op e h =
      let none_given : check_input gas flags params.user_op_input
          ≡ returned (left no_user_operation) =
        ap (check_input gas flags) e in
      ground arith

  -- An input is accepted, and passed on as it is, exactly if it names the entry point of the bundler, its
  -- required fields are hexadecimal texts, the fields of its paymaster fit, those of its factory too unless
  -- that is the marker of EIP-7702, and its gas is enough where that is checked; an authorization is
  -- accepted whether EIP-7702 is supported or not.
  pub validate_input_parameters_iff :
      (params : ValidateInputParams) (op : Object)
      → (validate_input_parameters gas flags params ≡ returned (right op))
        ↔ (IsSupported params × (params.user_op_input ≡ some op) × OperationFits op)
  unfolding validate_input_parameters
  validate_input_parameters_iff params op = elim (Option-cases params.user_op_input) [
    | inl absent ↦ (
      (λ h. absurd (accepted_only_given params.entry_point_input params op absent h)),
      λ (supported, given, fits). cc,
    )
    | inr (given, present) ↦
        let entry = check_entry_point_iff params.entry_point_input params given op present in
        let input = check_input_iff (some given) op in
        (
          (λ h.
              let (supported, rest) = entry.0 h in
              let (same, fits) = input.0 rest in (supported, present ∙ same, fits)),
          λ (supported, same, fits). entry.1 (supported, input.1 (sym present ∙ same, fits)),
        )
  ]
