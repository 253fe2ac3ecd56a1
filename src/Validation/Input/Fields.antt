-- ===== src/Validation/Input/Fields.antt =====
-- Which fields of an operation the checks let pass.
use transeptor_bundler.Prelude.{
  String, ◌≡◌, ◌⊎◌, ◌↔◌, inl, inr, refl, sym, ap, ◌∙◌, subst, Bool, true, false, ◌==◌, List, [],
  ◌∷◌, filter, length, All, eqb, eq_iff, Option, none, some, arith, Bool-cases,
}
use transeptor_bundler.Prelude.Text.{has_hex_prefix}
use transeptor_bundler.Errors.{RpcError}
use transeptor_bundler.Outcome.{Either, left, right, Result, returned, thrown, ◌>>◌, require_cond}
use transeptor_bundler.Validation.Input.{
  Object, field, is_hex, is_address, is_unexpected, is_missing, require_fields,
  require_address_and_fields, check_field, next_field, check_fields,
}

none_left {ℓ} :
    {A : Type ℓ} (p : A → Bool) (xs : List A)
    → (eqb (length (filter p xs)) 0 ≡ true) ↔ All (λ x. p x ≡ false) xs
none_left p [] = ((λ h. tt), λ h. refl)
none_left p (x ∷ xs) = elim (Bool-cases (p x)) [
  | inl hit ↦ ((λ h. absurd (ground arith)), λ h. cc)
  | inr miss ↦ rw miss ((λ h. (refl, (none_left p xs).0 h)), λ h. (none_left p xs).1 h.1)
]

require_cond_iff : (b : Bool) (e : RpcError) → (require_cond b e ≡ returned tt) ↔ (b ≡ true)
require_cond_iff b e = ((λ h. ground arith), λ h. ground arith)

-- With an address the fields that it needs are set, without one none of its fields is.
abbrev pub FieldsFit : Object → String → List String → List String → Type 0
FieldsFit op addr_field must optional =
    ((field addr_field op ≡ none) × All (λ entry. is_unexpected must optional entry ≡ false) op)
    ⊎ ((addr : String) × (field addr_field op ≡ some addr)
        × (is_address addr ≡ true)
        × All (λ name. is_missing op name ≡ false) must)

both : (m n : Result (Unit {0})) → (m >> n ≡ returned tt) ↔ ((m ≡ returned tt) × (n ≡ returned tt))
both (returned u) n = ((λ h. (refl, h)), λ h. h.1)
both (thrown e) n = ((λ h. cc), λ h. cc)

-- The address and the fields of an entity pass exactly if they fit.
pub require_address_and_fields_iff :
    (op : Object) (addr_field : String) (must optional : List String)
    → (require_address_and_fields op addr_field must optional ≡ returned tt)
      ↔ FieldsFit op addr_field must optional
unfolding require_address_and_fields require_fields
require_address_and_fields_iff op f must optional = (there (field f op) refl, back)
  where
    there :
        (o : Option String)
        → field f op ≡ o
        → require_fields o op f must optional ≡ returned tt
        → FieldsFit op f must optional
    there none q h =
        inl (q, (none_left (is_unexpected must optional) op).0 ((require_cond_iff _ _).0 h))
    there (some addr) q h =
        let (address, present) = (both (require_cond (is_address addr) _) _).0 h in
        inr (
          addr,
          q,
          (require_cond_iff (is_address addr) _).0 address,
          (none_left (is_missing op) must).0 ((require_cond_iff _ _).0 present),
        )

    back :
        FieldsFit op f must optional → require_fields (field f op) op f must optional ≡ returned tt
    back (inl (q, clear)) =
        subst (λ o. require_fields o op f must optional ≡ returned tt) (sym q)
          ((require_cond_iff _ _).1 ((none_left (is_unexpected must optional) op).1 clear))
    back (inr (addr, q, address, present)) =
        subst (λ o. require_fields o op f must optional ≡ returned tt) (sym q)
          ((both (require_cond (is_address addr) _) _).1 (
            (require_cond_iff (is_address addr) _).1 address,
            (require_cond_iff _ _).1 ((none_left (is_missing op) must).1 present),
          ))

-- A field that must be there is a hexadecimal text.
abbrev pub HasHex : Object → String → Type 0
HasHex op key = (value : String) × (field key op ≡ some value) × (is_hex value ≡ true)

empty_not_hex : is_hex "" ≡ false
unfolding is_hex has_hex_prefix
empty_not_hex = refl

not_empty : (value : String) → is_hex value ≡ true → (value == "") ≡ false
not_empty value h = elim (Bool-cases (value == "")) [
  | inl blank ↦ absurd (apart (sym h ∙ ap is_hex ((eq_iff value "").0 blank) ∙ empty_not_hex))
  | inr text ↦ text
]
  where
    apart : true ≡ false → ⊥
    apart p = cc

check_field_iff :
    (key : String) (o : Option String)
    → (check_field key o ≡ right tt) ↔ ((value : String) × (o ≡ some value) × (is_hex value ≡ true))
unfolding check_field
check_field_iff key none = ((λ h. cc), λ (value, q, h). cc)
check_field_iff key (some value) = (
  (λ h. (value, refl, ground arith)),
  λ (value', q, h).
      let same : value ≡ value' = cc in
      let hex = subst (λ v. is_hex v ≡ true) (sym same) h in rw (not_empty value hex, hex) refl,
)

next_field_iff :
    (first others : Either RpcError (Unit {0}))
    → (next_field first others ≡ right tt) ↔ ((first ≡ right tt) × (others ≡ right tt))
next_field_iff (left e) others = ((λ h. cc), λ h. cc)
next_field_iff (right u) others = ((λ h. (refl, h)), λ h. h.1)

pub check_fields_iff :
    (op : Object) (keys : List String) → (check_fields op keys ≡ right tt) ↔ All (HasHex op) keys
unfolding check_fields
check_fields_iff op [] = ((λ h. tt), λ h. refl)
check_fields_iff op (key ∷ keys) =
    let first = check_field_iff key (field key op) in
    let others = check_fields_iff op keys in
    let parts = next_field_iff (check_field key (field key op)) (check_fields op keys) in
    (
      (λ h. (first.0 (parts.0 h).0, others.0 (parts.0 h).1)),
      λ h. parts.1 (first.1 h.0, others.1 h.1),
    )

pub after_guards :
    {A : Type 0} (a b c : Result (Unit {0})) (x y : A)
    → (a >> b >> c >> returned x ≡ returned y)
      ↔ ((a ≡ returned tt) × (b ≡ returned tt) × (c ≡ returned tt) × (x ≡ y))
after_guards (returned u) (returned v) (returned w) x y = ((λ h. (refl, refl, refl, cc)), λ h. cc)
after_guards (returned u) (returned v) (thrown e) x y = ((λ h. cc), λ h. cc)
after_guards (returned u) (thrown e) c x y = ((λ h. cc), λ h. cc)
after_guards (thrown e) b c x y = ((λ h. cc), λ h. cc)
