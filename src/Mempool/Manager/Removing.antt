-- ===== src/Mempool/Manager/Removing.antt =====
-- `removeUserOp`: which entry it takes out, and what it does to the counts.
use transeptor_bundler.Prelude.{
  Bool, ℕ, ◌-◌, String, ◌≡◌, refl, sym, ap, ◌∙◌, subst, true, false, ◌==◌, eq_iff, eq_refl, leb,
  Option, none, some, arith, inl, inr, Bool-cases, Option-cases, if◌then◌else◌,
}
use transeptor_bundler.Prelude.Dict.{get, remove, get-put, get-remove}
use transeptor_bundler.Types.{UserOperation, MempoolEntry, StandardPool, EntryCount}
use transeptor_bundler.Outcome.{returned, right}
use transeptor_bundler.State.{State, or_else}
use transeptor_bundler.Reputation.{get_status}
use transeptor_bundler.Mempool.{find_by_sender_nonce}
use transeptor_bundler.Mempool.Slots.{IsSound, remove-IsSound, remove_frees}
use transeptor_bundler.Mempool.Entries.{get-Keyed, get-find_slot}
use transeptor_bundler.Mempool.Manager.{
  ManagerConfig, RelayUserOpParam, new_entry, UserOpOrHash, by_hash, by_op, lookup_entry,
  drop_count, remove_found, remove_user_op, update_both_lem, find_by_hash, add_user_op,
}
use transeptor_bundler.Mempool.Manager.Adding.{find_by_hash-add_user_op}

-- The entry that is looked up stands under its own hash.
pub get-lookup_entry :
    (which : UserOpOrHash) (e : MempoolEntry) (pool : StandardPool)
    → IsSound pool
    → lookup_entry which pool ≡ some e
    → get e.user_op_hash pool ≡ some e
unfolding lookup_entry find_by_sender_nonce
get-lookup_entry (by_hash hash) e pool v found =
    subst (λ k. get k pool ≡ some e) (sym (get-Keyed hash e pool v.keyed found)) found
get-lookup_entry (by_op op) e pool v found =
    get-find_slot _ op.nonce e pool v.keyed v.distinct found

-- `removeUserOp` says whether it found an entry; if it found none, it changes nothing.
pub remove_user_op_absent :
    (which : UserOpOrHash) (s : State)
    → lookup_entry which s.standard_pool ≡ none
    → remove_user_op which s ≡ (false, s)
unfolding remove_user_op remove_found
remove_user_op_absent which s h = rw h

-- A count after one of its operations has gone.
abbrev pub counted_down : Option ℕ → Option ℕ
counted_down o = let count = or_else o 0 - 1 in if leb count 0 then none else some count

get-drop_count :
    (sender a : String) (counts : EntryCount)
    → get a (drop_count sender counts)
      ≡ (if sender == a then counted_down (get a counts) else get a counts)
get-drop_count sender a counts = ground (
  arith,
  eq_iff sender a,
  get-remove sender a counts,
  get-put sender a (or_else (get sender counts) 0 - 1) counts,
)

module _ (which : UserOpOrHash) (e : MempoolEntry) (s : State)
    (found : lookup_entry which s.standard_pool ≡ some e) where
  removed : remove_user_op which s ≡ (
    true,
    record s {
      standard_pool = remove e.user_op_hash s.standard_pool;
      mempool_entry_count = drop_count e.user_op.sender s.mempool_entry_count;
    },
  )
  unfolding remove_user_op remove_found
  removed = rw found (
      ap (λ x. (true, x))
        (update_both_lem (remove e.user_op_hash) (λ _ counts. drop_count e.user_op.sender counts)
          s))

  -- Where `removeUserOp` finds an entry, it answers true and takes out that entry and no other.
  pub find_by_hash-remove_user_op :
      (k : String)
      → ((remove_user_op which s).0 ≡ true)
        × (find_by_hash k (remove_user_op which s).1
            ≡ (if e.user_op_hash == k then none else find_by_hash k s))
  unfolding find_by_hash
  find_by_hash-remove_user_op k = rw removed (refl, get-remove e.user_op_hash k s.standard_pool)

  -- Where `removeUserOp` finds an entry, it counts down the sender as the operation spells it, and no other text: not the
  -- sender in lower case where that is another text, and neither the paymaster nor the factory.
  pub count-remove_user_op :
      (a : String)
      → get a (remove_user_op which s).1.mempool_entry_count ≡ (
          if e.user_op.sender == a
          then counted_down (get a s.mempool_entry_count)
          else get a s.mempool_entry_count)
  count-remove_user_op a = rw removed (get-drop_count e.user_op.sender a s.mempool_entry_count)

pub remove_user_op-IsSound :
    (which : UserOpOrHash) (s : State)
    → IsSound s.standard_pool
    → IsSound (remove_user_op which s).1.standard_pool
remove_user_op-IsSound which s v = elim (Option-cases (lookup_entry which s.standard_pool)) [
  | inl absent ↦ rw (remove_user_op_absent which s absent) v
  | inr (e, found) ↦ rw (removed which e s found) (remove-IsSound e.user_op_hash s.standard_pool v)
]

absent_at {ℓ} :
    {A : Type ℓ} (h k : String) (x : Option A) (look : String → Option A)
    → look h ≡ none
    → (if h == k then none else if h == k then x else look k) ≡ look k
absent_at h k x look absent = elim (Bool-cases (h == k)) [
  | inl same ↦ rw same (sym (subst (λ j. look j ≡ none) ((eq_iff h k).0 same) absent))
  | inr other ↦ rw other
]

-- Removing an operation that was just accepted undoes it in the pool: if its sender and nonce had no
-- entry and its hash was not there, then under every hash stands what stood there before.
pub find_by_hash-remove_user_op-add_user_op :
    (config : ManagerConfig) (p : RelayUserOpParam) (s : State) (k : String)
    → (add_user_op config p s).0 ≡ returned (right p.user_op_hash)
    → find_by_sender_nonce p.user_op.sender p.user_op.nonce s.standard_pool ≡ none
    → find_by_hash p.user_op_hash s ≡ none
    → find_by_hash k (remove_user_op (by_hash p.user_op_hash) (add_user_op config p s).1).1
      ≡ find_by_hash k s
unfolding find_by_hash lookup_entry
find_by_hash-remove_user_op-add_user_op config p s k accepted free fresh =
    let found = find_by_hash-add_user_op config p s p.user_op_hash accepted in
    (find_by_hash-remove_user_op (by_hash p.user_op_hash) (new_entry p) (add_user_op config p s).1
      (rw (eq_refl p.user_op_hash) at found) k).1
    ∙ rw (find_by_hash-add_user_op config p s k accepted, free)
        (absent_at p.user_op_hash k (some (new_entry p)) (λ j. get j s.standard_pool) fresh)

-- The reputations are another part of the store.
pub reputation_entries-remove_user_op :
    (which : UserOpOrHash) (s : State)
    → (remove_user_op which s).1.reputation_entries ≡ s.reputation_entries
reputation_entries-remove_user_op which s =
    elim (Option-cases (lookup_entry which s.standard_pool)) [
      | inl absent ↦ rw (remove_user_op_absent which s absent)
      | inr (e, found) ↦ rw (removed which e s found)
    ]

-- Removing an operation changes no status.
pub get_status-remove_user_op :
    (which : UserOpOrHash) (a : Option String) (s : State)
    → get_status a (remove_user_op which s).1 ≡ get_status a s
unfolding get_status
get_status-remove_user_op which none s = refl
get_status-remove_user_op which (some a) s =
    elim (Option-cases (lookup_entry which s.standard_pool)) [
      | inl absent ↦ rw (remove_user_op_absent which s absent)
      | inr (e, found) ↦ rw (removed which e s found)
    ]

-- What is in the pool after a removal was there before.
pub find_by_hash_before :
    (which : UserOpOrHash) (s : State) (k : String) (d : MempoolEntry)
    → find_by_hash k (remove_user_op which s).1 ≡ some d
    → find_by_hash k s ≡ some d
find_by_hash_before which s k d h = elim (Option-cases (lookup_entry which s.standard_pool)) [
  | inl absent ↦ rw (remove_user_op_absent which s absent) at h
  | inr (e, found) ↦
      kept (e.user_op_hash == k) (find_by_hash k s)
        (sym (find_by_hash-remove_user_op which e s found k).1 ∙ h)
]
  where
    kept : (b : Bool) (o : Option MempoolEntry) → (if b then none else o) ≡ some d → o ≡ some d
    kept true o q = cc
    kept false o q = q

-- The slot of an operation that is removed is free.
pub find_by_sender_nonce-remove_user_op :
    (op : UserOperation) (s : State)
    → IsSound s.standard_pool
    → find_by_sender_nonce op.sender op.nonce (remove_user_op (by_op op) s).1.standard_pool ≡ none
unfolding lookup_entry find_by_sender_nonce
find_by_sender_nonce-remove_user_op op s v =
    elim (Option-cases (lookup_entry (by_op op) s.standard_pool)) [
      | inl absent ↦ rw (remove_user_op_absent (by_op op) s absent) absent
      | inr (e, found) ↦
          rw (removed (by_op op) e s found)
            (remove_frees _ op.nonce e s.standard_pool v.keyed v.one_per_slot found)
    ]

removed_at :
    (hash k : String) (s : State) (o : Option MempoolEntry)
    → IsSound s.standard_pool
    → get hash s.standard_pool ≡ o
    → find_by_hash k (remove_user_op (by_hash hash) s).1
      ≡ (if hash == k then none else find_by_hash k s)
unfolding find_by_hash lookup_entry
removed_at hash k s none v g =
    ap (λ r. get k r.1.standard_pool) (remove_user_op_absent (by_hash hash) s g)
    ∙ ground (arith, eq_iff hash k)
removed_at hash k s (some e) v g =
    (find_by_hash-remove_user_op (by_hash hash) e s g k).1
    ∙ ap (λ h. if h == k then none else get k s.standard_pool)
        (get-Keyed hash e s.standard_pool v.keyed g)

-- Of a sound pool the hash is removed, whether it is there or not.
pub remove_by_hash :
    (hash k : String) (s : State)
    → IsSound s.standard_pool
    → find_by_hash k (remove_user_op (by_hash hash) s).1
      ≡ (if hash == k then none else find_by_hash k s)
remove_by_hash hash k s v = removed_at hash k s (get hash s.standard_pool) v refl
