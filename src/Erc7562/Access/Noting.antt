-- ===== src/Erc7562/Access/Noting.antt =====
-- What the storage map holds after the slots of a call were noted.
use text.Mathlib.TextEquality.{eq_iff}
use transeptor_bundler.Prelude.{
  String, ◌≡◌, refl, sym, ◌∙◌, Bool, true, false, ◌&&◌, ◌||◌, not, ◌==◌, List, [], ◌∷◌, ◌++◌,
  includes, Option, none, some, if◌then◌else◌, arith, Bool-cases, inl, inr,
}
use transeptor_bundler.Prelude.Dict.{Dict, get, keys, get-put}
use transeptor_bundler.Prelude.Dict.Laws.{get-nil}
use transeptor_bundler.Prelude.Text.{to_lower_case}
use transeptor_bundler.Types.{StorageEntry, root, slots}
use transeptor_bundler.Erc7562.{AccessedSlots, RunnerState, here}
use transeptor_bundler.Erc7562.Access.{Hashing, slots_of, all_slots, with_slot, note_slot}

-- The value of a slot in an entry of the map.
abbrev pub value_at : String → Option StorageEntry → Option String
value_at slot none = none
value_at slot (some (root r)) = none
value_at slot (some (slots d)) = get slot d

abbrev pub is_root : Option StorageEntry → Bool
is_root none = false
is_root (some (root r)) = true
is_root (some (slots d)) = false

abbrev holds_key {ℓ} : {V : Type ℓ} → Option (Dict V) → String → Bool
holds_key none slot = false
holds_key (some d) slot = includes (keys d) slot

-- A call accesses the slots that it writes or reads, for good or for the transaction.
abbrev pub accesses : AccessedSlots → String → Bool
accesses a slot =
    holds_key a.writes slot
    || (holds_key a.reads slot
        || (holds_key a.transient_writes slot || holds_key a.transient_reads slot))

-- The called contract's accessed slots have an empty value, and the rest is as before.
pub record HasNoted (entry_point_address : String) (s t : RunnerState) : Type 0 where
  pub same : t ≡ record s { storage_map = t.storage_map }
  pub values :
      (address slot : String)
      → value_at slot (get address t.storage_map) ≡ (
          if not (to_lower_case (here s).to == entry_point_address)
            && ((here s).to == address
                && (not (is_root (get address s.storage_map))
                    && accesses (here s).accessed_slots slot))
          then some ""
          else value_at slot (get address s.storage_map))

includes_append :
    (xs ys : List String) (a : String) → includes (xs ++ ys) a ≡ includes xs a || includes ys a
includes_append [] ys a = refl
includes_append (x ∷ xs) ys a = ground (arith, includes_append xs ys a)

includes-slots_of {ℓ} :
    {V : Type ℓ} (o : Option (Dict V)) (a : String) → includes (slots_of o) a ≡ holds_key o a
includes-slots_of none a = refl
includes-slots_of (some d) a = refl

includes-all_slots :
    (a : AccessedSlots) (slot : String) → includes (all_slots a) slot ≡ accesses a slot
includes-all_slots a slot =
    let w = slots_of a.writes in
    let r = slots_of a.reads in
    let tw = slots_of a.transient_writes in
    let tr = slots_of a.transient_reads in
    rw
      (
        includes_append w (r ++ (tw ++ tr)) slot,
        includes_append r (tw ++ tr) slot,
        includes_append tw tr slot,
        includes-slots_of a.writes slot,
        includes-slots_of a.reads slot,
        includes-slots_of a.transient_writes slot,
        includes-slots_of a.transient_reads slot,
      )
      refl

value_at-with_slot :
    (o : Option StorageEntry) (slot j : String)
    → value_at j (some (with_slot o slot))
      ≡ (if not (is_root o) && slot == j then some "" else value_at j o)
value_at-with_slot none slot j = get-put slot j "" [] ∙ ground (arith, get-nil {V = String} j)
value_at-with_slot (some (root r)) slot j = refl
value_at-with_slot (some (slots d)) slot j = get-put slot j "" d

is_root-with_slot :
    (o : Option StorageEntry) (slot : String) → is_root (some (with_slot o slot)) ≡ is_root o
is_root-with_slot none slot = refl
is_root-with_slot (some (root r)) slot = refl
is_root-with_slot (some (slots d)) slot = refl

module _ (hashing : Hashing) where
  -- The storage map after the slots of a call were noted.
  abbrev pub note_slots : List String → RunnerState → RunnerState
  note_slots [] s = s
  note_slots (slot ∷ rest) s = note_slots rest (note_slot hashing slot s)

  -- Outside the entry point the slots of the call are noted.
  abbrev pub noted : String → RunnerState → RunnerState
  noted entry_point_address s =
      if to_lower_case (here s).to == entry_point_address
      then s
      else note_slots (all_slots (here s).accessed_slots) s

  value_at-note_slot :
      (slot j address : String) (s : RunnerState)
      → value_at j (get address (note_slot hashing slot s).storage_map) ≡ (
          if (here s).to == address && (not (is_root (get address s.storage_map)) && slot == j)
          then some ""
          else value_at j (get address s.storage_map))
  unfolding note_slot
  value_at-note_slot slot j address s = elim (Bool-cases ((here s).to == address)) [
    | inl hit ↦
        let same : (here s).to ≡ address = ground (arith, eq_iff (here s).to address) in
        rw
          (
            get-put (here s).to address (with_slot (get (here s).to s.storage_map) slot)
                s.storage_map,
            hit,
            same,
          )
          (value_at-with_slot (get address s.storage_map) slot j)
    | inr miss ↦
        rw
          (
            get-put (here s).to address (with_slot (get (here s).to s.storage_map) slot)
                s.storage_map,
            miss,
          )
          refl
  ]

  is_root-note_slot :
      (slot address : String) (s : RunnerState)
      → is_root (get address (note_slot hashing slot s).storage_map)
        ≡ is_root (get address s.storage_map)
  unfolding note_slot
  is_root-note_slot slot address s = elim (Bool-cases ((here s).to == address)) [
    | inl hit ↦
        let same : (here s).to ≡ address = ground (arith, eq_iff (here s).to address) in
        rw
          (
            get-put (here s).to address (with_slot (get (here s).to s.storage_map) slot)
                s.storage_map,
            hit,
            same,
          )
          (is_root-with_slot (get address s.storage_map) slot)
    | inr miss ↦
        rw
          (
            get-put (here s).to address (with_slot (get (here s).to s.storage_map) slot)
                s.storage_map,
            miss,
          )
          refl
  ]

  here-note_slot : (slot : String) (s : RunnerState) → here (note_slot hashing slot s) ≡ here s
  unfolding note_slot
  here-note_slot slot s = refl

  -- A later slot of a list, after the first one was noted.
  later_slot :
      {V : Type 0} (at_call at_root first rest : Bool) (x y : V)
      → (if at_call && (not at_root && rest)
          then x
          else if at_call && (not at_root && first)
          then x
          else y)
        ≡ (if at_call && (not at_root && (first || rest)) then x else y)
  later_slot at_call at_root first rest x y = ground arith

  value_at-note_slots :
      (list : List String) (j address : String) (s : RunnerState)
      → value_at j (get address (note_slots list s).storage_map) ≡ (
          if (here s).to == address
            && (not (is_root (get address s.storage_map)) && includes list j)
          then some ""
          else value_at j (get address s.storage_map))
  value_at-note_slots [] j address s = ground arith
  value_at-note_slots (slot ∷ list) j address s =
      rw
        (
          value_at-note_slots list j address (note_slot hashing slot s),
          here-note_slot slot s,
          is_root-note_slot slot address s,
          value_at-note_slot slot j address s,
        )
        (later_slot ((here s).to == address) (is_root (get address s.storage_map)) (slot == j)
          (includes list j) (some "") (value_at j (get address s.storage_map)))

  same-note_slots :
      (list : List String) (s : RunnerState)
      → note_slots list s ≡ record s { storage_map = (note_slots list s).storage_map }
  unfolding note_slot
  same-note_slots [] s = refl
  same-note_slots (slot ∷ list) s = same-note_slots list (note_slot hashing slot s)

  pub noted-HasNoted :
      (entry_point_address : String) (s : RunnerState)
      → HasNoted entry_point_address s (noted entry_point_address s)
  noted-HasNoted entry_point_address s =
      elim (Bool-cases (to_lower_case (here s).to == entry_point_address)) [
        | inl inside ↦ rw inside (record { same = refl; values = λ address slot. rw inside refl })
        | inr outside ↦ rw outside (record {
          same = same-note_slots (all_slots (here s).accessed_slots) s;
          values = λ address slot.
              rw (outside, sym (includes-all_slots (here s).accessed_slots slot))
                (value_at-note_slots (all_slots (here s).accessed_slots) slot address s);
        })
      ]
