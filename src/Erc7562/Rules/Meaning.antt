-- ===== src/Erc7562/Rules/Meaning.antt =====
-- What the checks of the rules decide.
use transeptor_bundler.Prelude.{
  ℕ, String, ◌≡◌, ◌<◌, ◌⊎◌, inl, inr, refl, Bool, true, false, ◌&&◌, ◌||◌, not, ◌==◌, List, [], ◌∷◌,
  includes, All, Option, if◌then◌else◌, arith, Bool-cases,
}
use transeptor_bundler.Prelude.Dict.{Dict, keys}
use transeptor_bundler.Prelude.Text.{to_lower_case}
use transeptor_bundler.Outcome.{left, right, flat_map}
use transeptor_bundler.Erc7562.{
  ContractSize, ParserError, RunnerState, here, Checked, is_entity_staked, is_precompiled,
  is_forbidden_precompiled, is_call_to_entry_point,
}
use transeptor_bundler.Erc7562.Opcodes.{
  banned_op_codes, opcodes_only_in_staked_entities, used_of, name_of_key,
}
use transeptor_bundler.Erc7562.Rules.{
  is_create, is_create2, is_paymaster, has_context, value_of, known_method, unless_used,
  check_op011, check_op020, check_op031, is_allowed_create, check_op041, check_sizes, lacks_code,
  check_op054, check_op054_ext_code, check_ext_code, check_op061, allowed_methods,
  check_op062_allowed_precompiles, check_precompiles, check_op080, check_erep050,
}

-- A check passes a state on exactly if a rule holds, and refuses it otherwise.
abbrev pub Decides : Checked → RunnerState → Type 0 → Type 0
Decides check t R = ((check ≡ right t) × R) ⊎ (((e : ParserError) × (check ≡ left e)) × (R → ⊥))

pub flat_map-Decides :
    {R Q : Type 0} (check : Checked) (next : RunnerState → Checked) (s t : RunnerState)
    → Decides check s R
    → Decides (next s) t Q
    → Decides (flat_map check next) t (R × Q)
flat_map-Decides check next s t (inl (e, r)) (inl (e', q)) = inl (rw e e', (r, q))
flat_map-Decides check next s t (inl (e, r)) (inr ((v, e'), h)) = inr ((v, rw e e'), λ p. h p.1)
flat_map-Decides check next s t (inr ((v, e), h)) d = inr ((v, rw e), λ p. h p.0)

Decides-if :
    {R : Type 0} (bad : Bool) (e : ParserError) (s : RunnerState)
    → (bad ≡ false → R)
    → (bad ≡ true → R → ⊥)
    → Decides (if bad then left e else right s) s R
Decides-if true e s good wrong = inr ((e, refl), wrong refl)
Decides-if false e s good wrong = inl (refl, good refl)

pub Decides-map :
    {R Q : Type 0} (check : Checked) (t : RunnerState)
    → (R → Q)
    → (Q → R)
    → Decides check t R
    → Decides check t Q
Decides-map check t f g (inl (e, r)) = inl (e, f r)
Decides-map check t f g (inr (v, h)) = inr (v, λ q. h (g q))

-- One round of a loop that ends at the first violation.
pub Decides-round :
    {R P : Type 0} (bad : Bool) (e : ParserError) (rest : Checked) (s : RunnerState)
    → (bad ≡ false → P)
    → (bad ≡ true → P → ⊥)
    → Decides rest s R
    → Decides (if bad then left e else rest) s (P × R)
Decides-round true e rest s good wrong d = inr ((e, refl), λ p. wrong refl p.0)
Decides-round false e rest s good wrong (inl (q, r)) = inl (q, (good refl, r))
Decides-round false e rest s good wrong (inr (v, h)) = inr (v, λ p. h p.1)

pub Decides-unless :
    {R : Type 0} (free : Bool) (check : Checked) (s : RunnerState)
    → Decides check s R
    → Decides (if free then right s else check) s (free ≡ false → R)
Decides-unless true check s d = inl (refl, λ h. cc)
Decides-unless false check s d = Decides-map check s (λ r h. r) (λ f. f refl) d

-- A key of usedOpcodes does not name one of a list of opcodes.
abbrev pub NoneOf : List String → Dict ℕ → Type 0
NoneOf names opcodes = All (λ key. includes names (name_of_key key) ≡ false) (keys opcodes)

used_of-Decides :
    (names : List String) (opcodes : Dict ℕ) (e : ParserError) (s : RunnerState)
    → Decides (unless_used (used_of names opcodes) (left e) (right s)) s (NoneOf names opcodes)
unfolding used_of
used_of-Decides names [] e s = inl (refl, tt)
used_of-Decides names ((key, n) ∷ opcodes) e s =
    Decides-map _ s (λ p. p) (λ p. p)
      (elim (Bool-cases (includes names (name_of_key key))) [
        | inl hit ↦ inr ((e, rw hit), λ p. cc)
        | inr miss ↦
            rw miss
              (Decides-round false e _ s (λ _. refl) (λ h. cc) (used_of-Decides names opcodes e s))
      ])

-- The rules, for the state in which a call is checked.
module _ (entry_point_address : String) (function_name : String → Option String)
    (s : RunnerState) where
  -- [OP-011] Outside the entry point no opcode is a banned one.
  abbrev pub NoBannedOpcode : Type 0
  NoBannedOpcode =
      (to_lower_case (here s).to == entry_point_address) ≡ false
      → NoneOf banned_op_codes (here s).used_opcodes

  -- [OP-031, OP-032, EREP-060]
  abbrev pub CreationAllowed : Type 0
  CreationAllowed =
      is_create (here s).type || is_create2 (here s).type ≡ true → is_allowed_create s ≡ true

  -- [OP-041, OP-042] for one address of contractSize
  abbrev pub HasCode : String × ContractSize → Type 0
  HasCode (address, size) =
      is_precompiled address ≡ false
      → (to_lower_case address == to_lower_case s.user_op.sender) ≡ false
      → (to_lower_case address == entry_point_address) ≡ false
      → 2 < size.contract_size

  -- [OP-052, OP-053, OP-054]
  abbrev pub EntryPointCallAllowed : Type 0
  EntryPointCallAllowed =
      is_call_to_entry_point entry_point_address (here s) ≡ true
      → includes allowed_methods (known_method function_name (here s).input) ≡ true

  abbrev pub NoExtCodeOfEntryPoint : Type 0
  NoExtCodeOfEntryPoint =
      All (λ address. (to_lower_case address == entry_point_address) ≡ false)
        (here s).ext_code_access_info

  -- [OP-061]
  abbrev pub NoValue : Type 0
  NoValue =
      is_call_to_entry_point entry_point_address (here s) ≡ false → value_of (here s).value ≡ 0

  -- [OP-062]
  abbrev pub PrecompilesAllowed : Type 0
  PrecompilesAllowed =
      All (λ address. is_forbidden_precompiled address ≡ false) (keys (here s).contract_size)

  -- [OP-080]
  abbrev pub BalanceIfStaked : Type 0
  BalanceIfStaked =
      is_entity_staked s.validation_result s.current_entity ≡ false
      → NoneOf opcodes_only_in_staked_entities (here s).used_opcodes

  -- [EREP-050]
  abbrev pub ContextIfStaked : Type 0
  ContextIfStaked =
      is_paymaster s.current_entity ≡ true
      → is_entity_staked s.validation_result s.current_entity ≡ false
      → has_context s.validation_result.paymaster_info ≡ false

  pub check_op011-Decides : Decides (check_op011 entry_point_address s) s NoBannedOpcode
  unfolding check_op011
  check_op011-Decides =
      Decides-unless (to_lower_case (here s).to == entry_point_address) _ s
        (used_of-Decides banned_op_codes (here s).used_opcodes _ s)

  pub check_op020-Decides : Decides (check_op020 s) s ((here s).out_of_gas ≡ false)
  unfolding check_op020
  check_op020-Decides = Decides-if (here s).out_of_gas _ s (λ h. h) (λ h k. cc)

  pub check_op031-Decides : Decides (check_op031 s) s CreationAllowed
  unfolding check_op031
  check_op031-Decides =
      Decides-map _ s (λ f h. f (ground arith)) (λ f h. f (ground arith))
        (Decides-unless (not (is_create (here s).type) && not (is_create2 (here s).type)) _ s
          (Decides-if (not (is_allowed_create s)) _ s (λ h. ground arith) (λ h k. ground arith)))

  check_sizes-Decides :
      (sizes : Dict ContractSize)
      → Decides (check_sizes entry_point_address sizes s) s (All HasCode sizes)
  unfolding check_sizes lacks_code
  check_sizes-Decides [] = inl (refl, tt)
  check_sizes-Decides ((address, size) ∷ sizes) =
      Decides-round (not (is_precompiled address) && lacks_code entry_point_address s address size)
        _ _ s (λ h k l m. ground arith) (λ h k. ground (arith, k)) (check_sizes-Decides sizes)

  check_ext_code-Decides :
      (addresses : List String)
      → Decides
          (check_ext_code entry_point_address addresses s)
          s
          (All (λ address. (to_lower_case address == entry_point_address) ≡ false) addresses)
  unfolding check_ext_code
  check_ext_code-Decides [] = inl (refl, tt)
  check_ext_code-Decides (address ∷ addresses) =
      Decides-round _ _ _ s (λ h. h) (λ h k. cc) (check_ext_code-Decides addresses)

  check_precompiles-Decides :
      (addresses : List String)
      → Decides
          (check_precompiles addresses s)
          s
          (All (λ address. is_forbidden_precompiled address ≡ false) addresses)
  unfolding check_precompiles
  check_precompiles-Decides [] = inl (refl, tt)
  check_precompiles-Decides (address ∷ addresses) =
      Decides-round _ _ _ s (λ h. h) (λ h k. cc) (check_precompiles-Decides addresses)

  pub check_op061-Decides : Decides (check_op061 entry_point_address s) s NoValue
  unfolding check_op061
  check_op061-Decides = Decides-if _ _ s (λ h k. ground arith) (λ h k. ground arith)

  pub check_op054-Decides :
      Decides (check_op054 entry_point_address function_name s) s EntryPointCallAllowed
  unfolding check_op054
  check_op054-Decides = Decides-if _ _ s (λ h k. ground arith) (λ h k. ground arith)

  pub check_op080-Decides : Decides (check_op080 s) s BalanceIfStaked
  unfolding check_op080
  check_op080-Decides = elim (Bool-cases (is_entity_staked s.validation_result s.current_entity)) [
    | inl staked ↦ rw staked (inl (refl, λ h. cc))
    | inr unstaked ↦ rw unstaked (
        Decides-map _ s (λ p h. p) (λ f. f refl)
          (used_of-Decides opcodes_only_in_staked_entities (here s).used_opcodes _ s))
  ]

  pub check_erep050-Decides : Decides (check_erep050 s) s ContextIfStaked
  unfolding check_erep050
  check_erep050-Decides = Decides-if _ _ s (λ h k l. ground arith) (λ h k. ground arith)

  pub check_op041-Decides :
      Decides (check_op041 entry_point_address s) s (All HasCode (here s).contract_size)
  unfolding check_op041
  check_op041-Decides = check_sizes-Decides (here s).contract_size

  pub check_op054_ext_code-Decides :
      Decides (check_op054_ext_code entry_point_address s) s NoExtCodeOfEntryPoint
  unfolding check_op054_ext_code
  check_op054_ext_code-Decides = check_ext_code-Decides (here s).ext_code_access_info

  pub check_op062-Decides : Decides (check_op062_allowed_precompiles s) s PrecompilesAllowed
  unfolding check_op062_allowed_precompiles
  check_op062-Decides = check_precompiles-Decides (keys (here s).contract_size)
