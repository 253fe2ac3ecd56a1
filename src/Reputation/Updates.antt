-- ===== src/Reputation/Updates.antt =====
-- What the counter updates do to every entry.
use native.Mathlib.Nat.{div-le_of_le-mul}
use transeptor_bundler.Prelude.{
  min, ◌+◌, ◌*◌, ◌/◌, ◌≤◌, String, ◌≡◌, ◌≢◌, refl, false, ◌==◌, eq_iff, List, [], ◌∷◌, map, Option,
  none, some, arith, inl, inr, Bool-cases, includes, if◌then◌else◌,
}
use transeptor_bundler.Prelude.Dict.{get, get-put}
use transeptor_bundler.Prelude.Dict.Laws.{Distinct, put-Distinct, get-merge, get-nil}
use transeptor_bundler.Prelude.Text.{to_lower_case, to_lower_case_idem}
use transeptor_bundler.Types.{ReputationEntry, ReputationEntries}
use transeptor_bundler.State.{State}
use transeptor_bundler.Reputation.{
  update_entries_lem, get_or_create, bump_seen, SeenAction, seen, update_seen_status,
  update_included_status, crashed_handle_ops, seen_batch, update_seen_status_batch,
  calculate_max_allowed_mempool_ops_unstaked, inclusion_bonus,
}

-- The entry that the store holds under a lower-case address.
abbrev pub entry_at : String → State → Option ReputationEntry
entry_at addr s = get addr s.reputation_entries

ne_false : (s t : String) → s ≢ t → (s == t) ≡ false
ne_false s t h = ground (arith, eq_iff s t)

get_or_create-lower :
    (a : String) (entries : ReputationEntries)
    → get_or_create (to_lower_case a) entries ≡ get_or_create a entries
unfolding get_or_create
get_or_create-lower a entries = rw (to_lower_case_idem a)

-- Seeing an address moves its counter by one in the given direction, not below zero, and creates
-- the entry where there was none; every other entry stays as it was.
pub entry_at-update_seen_status :
    (a k : String) (action : SeenAction) (s : State)
    → a ≢ ""
    → let entry = get_or_create a s.reputation_entries in
      entry_at k (update_seen_status (some a) action s) ≡ (
        if to_lower_case a == k
        then some (record entry { ops_seen = seen action entry.ops_seen })
        else entry_at k s)
unfolding update_seen_status bump_seen
entry_at-update_seen_status a k action s named =
    rw (ne_false a "" named, update_entries_lem, get_or_create-lower a s.reputation_entries)
      (get-put (to_lower_case a) k _ s.reputation_entries)

seen_batch-Distinct :
    (addrs : List String) (entries acc : ReputationEntries)
    → Distinct acc
    → Distinct (seen_batch addrs entries acc)
unfolding seen_batch
seen_batch-Distinct [] entries acc h = h
seen_batch-Distinct (a ∷ addrs) entries acc h =
    seen_batch-Distinct addrs entries _ (put-Distinct (to_lower_case a) _ acc h)

abbrev pub seen_once : String → ReputationEntries → ReputationEntry
seen_once k entries =
    let entry = get_or_create k entries in record entry { ops_seen = entry.ops_seen + 1 }

get-seen_batch :
    (addrs : List String) (entries acc : ReputationEntries) (k : String)
    → get k (seen_batch addrs entries acc)
      ≡ (if includes (map to_lower_case addrs) k then some (seen_once k entries) else get k acc)
unfolding seen_batch
get-seen_batch [] entries acc k = refl
get-seen_batch (a ∷ addrs) entries acc k =
    rw (get-seen_batch addrs entries _ k, get-put) (ground (arith, eq_iff (to_lower_case a) k))

-- A batch counts every address that it names once, however often it names it, and leaves all other
-- entries as they were.
pub entry_at-update_seen_status_batch :
    (addrs : List String) (k : String) (s : State)
    → entry_at k (update_seen_status_batch addrs s) ≡ (
        if includes (map to_lower_case addrs) k
        then some (seen_once k s.reputation_entries)
        else entry_at k s)
unfolding update_seen_status_batch
entry_at-update_seen_status_batch [] k s = refl
entry_at-update_seen_status_batch (a ∷ addrs) k s =
    rw
      (
        update_entries_lem,
        get-merge k s.reputation_entries _ (seen_batch-Distinct (a ∷ addrs) _ [] tt),
        get-seen_batch (a ∷ addrs) s.reputation_entries [] k,
        get-nil,
      )
      (ground arith)

inclusion_bonus-le : (e : ReputationEntry) → e.ops_included ≤ e.ops_seen → inclusion_bonus e ≤ 10
inclusion_bonus-le e h =
    let bound : e.ops_included * 10 / e.ops_seen ≤ 10 = div-le_of_le-mul e.ops_seen (omega arith) in
    ground arith

-- An unstaked entity that has an entry, with no more inclusions than sightings, may hold at least 10 user
-- operations, and at most 20 more than its inclusions, of which at most 10000 count.
pub calculate_max_allowed_mempool_ops_unstaked_bounds :
    (entity : String) (s : State) (e : ReputationEntry)
    → entry_at (to_lower_case entity) s ≡ some e
    → e.ops_included ≤ e.ops_seen
    → (10 ≤ calculate_max_allowed_mempool_ops_unstaked entity s)
      × (calculate_max_allowed_mempool_ops_unstaked entity s ≤ 20 + min e.ops_included 10000)
unfolding calculate_max_allowed_mempool_ops_unstaked
calculate_max_allowed_mempool_ops_unstaked_bounds entity s e h k =
    rw h (omega arith, omega (arith, inclusion_bonus-le e k))

-- The counters are a part of the store of their own: the pool and its counts stay.
pub pool-update_seen_status :
    (a : Option String) (action : SeenAction) (s : State)
    → ((update_seen_status a action s).standard_pool ≡ s.standard_pool)
      × ((update_seen_status a action s).mempool_entry_count ≡ s.mempool_entry_count)
unfolding update_seen_status
pool-update_seen_status none action s = (refl, refl)
pool-update_seen_status (some a) action s = elim (Bool-cases (a == "")) [
  | inl blank ↦ rw blank (refl, refl)
  | inr named ↦ rw (named, update_entries_lem) (refl, refl)
]

pub pool-update_included_status :
    (a : String) (s : State) → (update_included_status a s).standard_pool ≡ s.standard_pool
unfolding update_included_status
pool-update_included_status a s = rw update_entries_lem

pub pool-crashed_handle_ops :
    (a : Option String) (s : State) → (crashed_handle_ops a s).standard_pool ≡ s.standard_pool
unfolding crashed_handle_ops
pool-crashed_handle_ops none s = refl
pool-crashed_handle_ops (some a) s = rw update_entries_lem

pub white_list-update_seen_status :
    (a : Option String) (action : SeenAction) (s : State)
    → (update_seen_status a action s).white_list ≡ s.white_list
unfolding update_seen_status
white_list-update_seen_status none action s = refl
white_list-update_seen_status (some a) action s = elim (Bool-cases (a == "")) [
  | inl blank ↦ rw blank
  | inr named ↦ rw (named, update_entries_lem)
]
