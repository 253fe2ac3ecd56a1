-- ===== src/Mempool/Roles.antt =====
-- `checkMultipleRolesViolation`: no address is a sender in one operation and an entity in another.
use transeptor_bundler.Prelude.{
  String, ◌≡◌, refl, ◌∙◌, ◌⊎◌, inl, inr, Bool, true, false, ◌&&◌, ◌||◌, not, ◌==◌, eq_iff, List, [],
  ◌∷◌, map, filter, includes, Option, none, some, arith, Bool-cases,
}
use transeptor_bundler.Prelude.Dict.{put, values}
use transeptor_bundler.Prelude.Text.{to_lower_case, lower_or_empty}
use transeptor_bundler.Types.{UserOperation, MempoolEntry, StandardPool}
use transeptor_bundler.Outcome.{right}
use transeptor_bundler.Mempool.{
  MempoolEntryMetadata, senders_of, entities_of, or_0x, get_known_senders, get_known_entities,
  check_multiple_roles_violation,
}

-- An address, in lower case, that a user operation names as its paymaster or factory.
abbrev pub is_named : String → Option String → Bool
is_named a none = false
is_named a (some e) = not (e == "") && (not (e == "0x") && (to_lower_case e == a))

abbrev pub is_entity : String → UserOperation → Bool
is_entity a op = is_named a op.paymaster || is_named a op.factory

abbrev known_entities_of : List MempoolEntry → List String
known_entities_of es = map to_lower_case (filter (λ a. not (a == "0x")) (entities_of es))

includes-or_0x :
    (a : String) (o : Option String) (xs : List String)
    → includes (map to_lower_case (filter (λ x. not (x == "0x")) (or_0x o ∷ xs))) a
      ≡ (is_named a o || includes (map to_lower_case (filter (λ x. not (x == "0x")) xs)) a)
includes-or_0x a none xs = refl
includes-or_0x a (some e) xs = elim (Bool-cases (e == "")) [
  | inl blank ↦ rw blank
  | inr full ↦ rw full (elim (Bool-cases (e == "0x")) [ inl hex ↦ rw hex | inr real ↦ rw real ])
]

or_assoc : (a b c : Bool) → (a || (b || c)) ≡ (a || b || c)
or_assoc a b c = ground arith

known_entities_of-cons :
    (a : String) (e : MempoolEntry) (es : List MempoolEntry)
    → includes (known_entities_of (e ∷ es)) a
      ≡ (is_entity a e.user_op || includes (known_entities_of es) a)
unfolding entities_of
known_entities_of-cons a e es =
    includes-or_0x a e.user_op.paymaster (or_0x e.user_op.factory ∷ entities_of es)
    ∙ rw (includes-or_0x a e.user_op.factory (entities_of es)) (
        or_assoc (is_named a e.user_op.paymaster) (is_named a e.user_op.factory)
          (includes (known_entities_of es) a))

module _ (k : String) (e : MempoolEntry) (a : String) where
  senders_of-put :
      (pool : StandardPool)
      → includes (senders_of (values (put k e pool))) a ≡ true
      → (to_lower_case e.user_op.sender ≡ a) ⊎ (includes (senders_of (values pool)) a ≡ true)
  unfolding senders_of put
  senders_of-put [] h = ground (arith, eq_iff (to_lower_case e.user_op.sender) a)
  senders_of-put ((j, w) ∷ pool) h =
      ground (arith, senders_of-put pool, eq_iff (to_lower_case e.user_op.sender) a)

  entities_of-put :
      (pool : StandardPool)
      → includes (known_entities_of (values (put k e pool))) a ≡ true
      → (is_entity a e.user_op ≡ true) ⊎ (includes (known_entities_of (values pool)) a ≡ true)
  unfolding put
  entities_of-put [] h = ground (arith, known_entities_of-cons a e [])
  entities_of-put ((j, w) ∷ pool) h = ground (
    arith,
    entities_of-put pool,
    known_entities_of-cons a w (values pool),
    known_entities_of-cons a w (values (put k e pool)),
    known_entities_of-cons a e (values pool),
  )

-- No address is known both as a sender and as an entity; one may be the paymaster of one operation and the
-- factory of another.
abbrev pub RolesApart : StandardPool → Type 0
RolesApart pool =
    (a : String)
    → includes (get_known_senders pool) a ≡ true
    → includes (get_known_entities pool) a ≡ true
    → ⊥

-- An entity of the operation is none of the known senders.
entity-not_sender :
    (a : String) (senders : List String) (o : Option String)
    → is_named a o ≡ true
    → includes senders (lower_or_empty o) ≡ false
    → includes senders a ≡ true
    → ⊥
entity-not_sender a senders none n f t = cc
entity-not_sender a senders (some e) n f t = ground (arith, eq_iff (to_lower_case e) a)

passed_parts :
    (entry : MempoolEntry) (metadata : MempoolEntryMetadata) (entities senders : List String)
    → check_multiple_roles_violation (entry, metadata) entities senders ≡ right (entry, metadata)
    → (includes entities (to_lower_case entry.user_op.sender) ≡ false)
      × (includes senders (lower_or_empty entry.user_op.paymaster) ≡ false)
      × (includes senders (lower_or_empty entry.user_op.factory) ≡ false)
unfolding check_multiple_roles_violation
passed_parts entry metadata entities senders h = ground arith

true_or : (b c : Bool) → (b || c) ≡ true → (b ≡ true) ⊎ (c ≡ true)
true_or b c h = ground arith

-- If the check lets a new operation in, and it does not name its own sender as its paymaster or
-- factory, then no address is both a sender and a paymaster or factory in the pool with it, provided
-- none was without it.
pub check_multiple_roles_violation-RolesApart :
    (entry : MempoolEntry) (metadata : MempoolEntryMetadata) (pool : StandardPool)
    → RolesApart pool
    → is_entity (to_lower_case entry.user_op.sender) entry.user_op ≡ false
    → check_multiple_roles_violation
        (entry, metadata)
        (get_known_entities pool)
        (get_known_senders pool)
      ≡ right (entry, metadata)
    → RolesApart (put entry.user_op_hash entry pool)
unfolding get_known_senders get_known_entities
check_multiple_roles_violation-RolesApart entry metadata pool apart own passed a sender entity =
    let (no_entity, no_paymaster, no_factory) = passed_parts entry metadata _ _ passed in
    elim (senders_of-put entry.user_op_hash entry a pool sender) [
      | inl new ↦ elim (entities_of-put entry.user_op_hash entry a pool entity) [
        | inl own' ↦ cc
        | inr old ↦ cc
      ]
      | inr known ↦ elim (entities_of-put entry.user_op_hash entry a pool entity) [
        | inl named ↦ elim (true_or _ _ named) [
          | inl p ↦ entity-not_sender a _ entry.user_op.paymaster p no_paymaster known
          | inr f ↦ entity-not_sender a _ entry.user_op.factory f no_factory known
        ]
        | inr old ↦ apart a known old
      ]
    ]
