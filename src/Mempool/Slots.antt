-- ===== src/Mempool/Slots.antt =====
-- A sender and a nonce are one slot of the pool.
use transeptor_bundler.State.{State}
use transeptor_bundler.Prelude.{
  ℕ, String, ◌≡◌, refl, sym, ap, subst, ◌∙◌, Bool, true, false, ◌&&◌, ◌==◌, eq_iff, List, [], ◌∷◌,
  eqb, eqb_iff, none, some, arith, inl, inr, Bool-cases, Option-cases, if◌then◌else◌,
}
use transeptor_bundler.Prelude.Dict.{put, remove, values}
use transeptor_bundler.Prelude.Dict.Laws.{Distinct, put-Distinct, remove-Distinct}
use transeptor_bundler.Prelude.Text.{to_lower_case}
use transeptor_bundler.Types.{MempoolEntry, StandardPool}
use transeptor_bundler.Mempool.{find_slot, find_by_sender_nonce, update_pool}

abbrev slot_sender : MempoolEntry → String
slot_sender e = to_lower_case e.user_op.sender

abbrev pub in_slot : String → ℕ → MempoolEntry → Bool
in_slot sender nonce e = to_lower_case e.user_op.sender == sender && eqb e.user_op.nonce nonce

-- Every entry stands under its own hash, no hash stands twice, and no slot is taken twice.
abbrev pub Keyed : StandardPool → Type 0
Keyed [] = Unit
Keyed ((k, e) ∷ pool) = (k ≡ e.user_op_hash) × Keyed pool

abbrev pub FreeOf : MempoolEntry → StandardPool → Type 0
FreeOf e pool = find_slot (to_lower_case e.user_op.sender) e.user_op.nonce (values pool) ≡ none

abbrev pub OnePerSlot : StandardPool → Type 0
OnePerSlot [] = Unit
OnePerSlot ((k, e) ∷ pool) = FreeOf e pool × OnePerSlot pool

pub put-Keyed :
    (e : MempoolEntry) (pool : StandardPool) → Keyed pool → Keyed (put e.user_op_hash e pool)
unfolding put
put-Keyed e [] h = (refl, tt)
put-Keyed e ((j, w) ∷ pool) (h, u) = elim (Bool-cases (j == e.user_op_hash)) [
  | inl hit ↦ rw hit ((eq_iff j e.user_op_hash).0 hit, u)
  | inr miss ↦ rw miss (h, put-Keyed e pool u)
]

remove-Keyed : (k : String) (pool : StandardPool) → Keyed pool → Keyed (remove k pool)
unfolding remove
remove-Keyed k [] h = tt
remove-Keyed k ((j, w) ∷ pool) (h, u) = elim (Bool-cases (j == k)) [
  | inl hit ↦ rw hit (remove-Keyed k pool u)
  | inr miss ↦ rw miss (h, remove-Keyed k pool u)
]

module _ (sender : String) (nonce : ℕ) where
  find-remove-none :
      (k : String) (pool : StandardPool)
      → find_slot sender nonce (values pool) ≡ none
      → find_slot sender nonce (values (remove k pool)) ≡ none
  unfolding find_slot remove
  find-remove-none k [] h = refl
  find-remove-none k ((j, w) ∷ pool) h = ground (arith, find-remove-none k pool)

  find-put-none :
      (k : String) (e : MempoolEntry) (pool : StandardPool)
      → find_slot sender nonce (values pool) ≡ none
      → in_slot sender nonce e ≡ false
      → find_slot sender nonce (values (put k e pool)) ≡ none
  unfolding find_slot put
  find-put-none k e [] h m = rw m
  find-put-none k e ((j, w) ∷ pool) h m = ground (arith, find-put-none k e pool)

remove-OnePerSlot :
    (k : String) (pool : StandardPool) → OnePerSlot pool → OnePerSlot (remove k pool)
unfolding remove
remove-OnePerSlot k [] h = tt
remove-OnePerSlot k ((j, w) ∷ pool) (h, u) = elim (Bool-cases (j == k)) [
  | inl hit ↦ rw hit (remove-OnePerSlot k pool u)
  | inr miss ↦ rw miss (find-remove-none _ _ k pool h, remove-OnePerSlot k pool u)
]

-- Two entries share a slot either way round.
in_slot_sym :
    (d e : MempoolEntry)
    → in_slot (to_lower_case d.user_op.sender) d.user_op.nonce e ≡ false
    → in_slot (to_lower_case e.user_op.sender) e.user_op.nonce d ≡ false
in_slot_sym d e h = ground (
  arith,
  eq_iff (to_lower_case d.user_op.sender) (to_lower_case e.user_op.sender),
  eq_iff (to_lower_case e.user_op.sender) (to_lower_case d.user_op.sender),
)

find_slot-cons :
    (sender : String) (nonce : ℕ) (w : MempoolEntry) (es : List MempoolEntry)
    → find_slot sender nonce (w ∷ es) ≡ none
    → (in_slot sender nonce w ≡ false) × (find_slot sender nonce es ≡ none)
unfolding find_slot
find_slot-cons sender nonce w es h = ground arith

put-OnePerSlot :
    (k : String) (e : MempoolEntry) (pool : StandardPool)
    → FreeOf e pool
    → OnePerSlot pool
    → OnePerSlot (put k e pool)
unfolding put
put-OnePerSlot k e [] f h = (unfold find_slot in refl, tt)
put-OnePerSlot k e ((j, w) ∷ pool) f (h, u) =
    let (apart, free) = find_slot-cons _ _ w (values pool) f in
    elim (Bool-cases (j == k)) [
      | inl hit ↦ rw hit (free, u)
      | inr miss ↦
          rw miss
            (find-put-none _ _ k e pool h (in_slot_sym e w apart), put-OnePerSlot k e pool free u)
    ]

pub same_some : {a b : MempoolEntry} → some a ≡ some b → a ≡ b
same_some h = cc

and_parts : (b c : Bool) → (b && c) ≡ true → (b ≡ true) × (c ≡ true)
and_parts b c h = ground arith

find_slot-nil :
    (sender : String) (nonce : ℕ) (old : MempoolEntry) → find_slot sender nonce [] ≡ some old → ⊥
unfolding find_slot
find_slot-nil sender nonce old h = cc

find_slot-hit :
    (sender : String) (nonce : ℕ) (w old : MempoolEntry) (es : List MempoolEntry)
    → in_slot sender nonce w ≡ true
    → find_slot sender nonce (w ∷ es) ≡ some old
    → (w ≡ old) × (to_lower_case w.user_op.sender ≡ sender) × (w.user_op.nonce ≡ nonce)
unfolding find_slot
find_slot-hit sender nonce w old es hit h =
    let parts = and_parts _ _ hit in
    (
      same_some (rw hit at h),
      (eq_iff (to_lower_case w.user_op.sender) sender).0 parts.0,
      (eqb_iff w.user_op.nonce nonce).0 parts.1,
    )

find_slot-miss :
    (sender : String) (nonce : ℕ) (w : MempoolEntry) (es : List MempoolEntry)
    → in_slot sender nonce w ≡ false
    → find_slot sender nonce (w ∷ es) ≡ find_slot sender nonce es
unfolding find_slot
find_slot-miss sender nonce w es miss = rw miss

remove-cons :
    (k j : String) (w : MempoolEntry) (pool : StandardPool)
    → remove k ((j, w) ∷ pool) ≡ (if j == k then remove k pool else (j, w) ∷ remove k pool)
unfolding remove
remove-cons k j w pool = refl

-- The old entry is the only one of its slot, and it stands under its hash: without it the slot is free.
pub remove_frees :
    (sender : String) (nonce : ℕ) (old : MempoolEntry) (pool : StandardPool)
    → Keyed pool
    → OnePerSlot pool
    → find_slot sender nonce (values pool) ≡ some old
    → find_slot sender nonce (values (remove old.user_op_hash pool)) ≡ none
remove_frees sender nonce old [] k u h = absurd (find_slot-nil sender nonce old h)
remove_frees sender nonce old ((j, w) ∷ pool) (k, ks) (u, us) h =
    elim (Bool-cases (in_slot sender nonce w)) [
      | inl hit ↦
          let (same, e, n) = find_slot-hit sender nonce w old (values pool) hit h in
          rw
            (
              remove-cons old.user_op_hash j w pool,
              (eq_iff j old.user_op_hash).1 (k ∙ ap (λ x. x.user_op_hash) same),
            )
            (find-remove-none sender nonce old.user_op_hash pool (
              subst (λ x. find_slot x nonce (values pool) ≡ none) e
                (subst (λ x. find_slot (to_lower_case w.user_op.sender) x (values pool) ≡ none) n
                  u)))
      | inr miss ↦
          let rest =
            remove_frees sender nonce old pool ks us
              (sym (find_slot-miss sender nonce w (values pool) miss) ∙ h) in
          rw (remove-cons old.user_op_hash j w pool) (elim (Bool-cases (j == old.user_op_hash)) [
            | inl gone ↦ rw gone rest
            | inr kept ↦ rw kept (find_slot-miss sender nonce w _ miss ∙ rest)
          ])
    ]

-- The pool's invariant.
pub record IsSound (pool : StandardPool) : Type 0 where
  pub keyed : Keyed pool
  pub distinct : Distinct pool
  pub one_per_slot : OnePerSlot pool

-- Adding an operation whose slot is free, or replacing the entry that was found in its slot, keeps
-- the invariant.
pub update_pool-IsSound :
    (entry : MempoolEntry) (pool : StandardPool)
    → IsSound pool
    → IsSound (
        update_pool entry (find_by_sender_nonce entry.user_op.sender entry.user_op.nonce pool) pool)
unfolding update_pool find_by_sender_nonce
update_pool-IsSound entry pool h =
    elim (Option-cases (find_slot (slot_sender entry) entry.user_op.nonce (values pool))) [
      | inl free ↦ rw free (record {
        keyed = put-Keyed entry pool h.keyed;
        distinct = put-Distinct _ entry pool h.distinct;
        one_per_slot = put-OnePerSlot _ entry pool free h.one_per_slot;
      })
      | inr (old, found) ↦ rw found (replaced old found)
    ]
  where
    replaced :
        (old : MempoolEntry)
        → find_slot (slot_sender entry) entry.user_op.nonce (values pool) ≡ some old
        → IsSound (put entry.user_op_hash entry (remove old.user_op_hash pool))
    replaced old found = record {
      keyed = put-Keyed entry _ (remove-Keyed old.user_op_hash pool h.keyed);
      distinct = put-Distinct _ entry _ (remove-Distinct old.user_op_hash pool h.distinct);
      one_per_slot =
          put-OnePerSlot _ entry _
            (remove_frees (slot_sender entry) entry.user_op.nonce old pool h.keyed h.one_per_slot
              found)
            (remove-OnePerSlot old.user_op_hash pool h.one_per_slot);
    }

pub remove-IsSound : (k : String) (pool : StandardPool) → IsSound pool → IsSound (remove k pool)
remove-IsSound k pool h = record {
  keyed = remove-Keyed k pool h.keyed;
  distinct = remove-Distinct k pool h.distinct;
  one_per_slot = remove-OnePerSlot k pool h.one_per_slot;
}

-- The pool of a store.
abbrev pub HasSound : State → Type 0
HasSound s = IsSound s.standard_pool
