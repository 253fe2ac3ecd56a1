-- ===== src/Mempool/Manager/Marking.antt =====
-- `updateEntryStatus`, which changes the status of one entry, and `clearState`.
use mathlib.Core.Option
use transeptor_bundler.Prelude.{
  String, ◌≡◌, refl, ◌==◌, [], Option, none, some, if◌then◌else◌, eq_iff, ◌∙◌, arith,
}
use transeptor_bundler.Prelude.Dict.{get, put, get-put}
use transeptor_bundler.Types.{EntryStatus, MempoolEntry}
use transeptor_bundler.State.{State}
use transeptor_bundler.Mempool.Slots.{IsSound}
use transeptor_bundler.Mempool.Entries.{set_status-IsSound, get-Keyed}
use transeptor_bundler.Mempool.Manager.{
  UserOpOrHash, lookup_entry, set_found, update_entry_status, set_status, clear_state,
  update_both_lem, update_pool_only_lem, find_by_hash, by_hash,
}
use transeptor_bundler.Mempool.Manager.Removing.{get-lookup_entry}

set_found-IsSound :
    (o : Option MempoolEntry) (status : EntryStatus) (s : State)
    → IsSound s.standard_pool
    → ((e : MempoolEntry) → o ≡ some e → get e.user_op_hash s.standard_pool ≡ some e)
    → IsSound (set_found o status s).standard_pool
unfolding set_found
set_found-IsSound none status s v there = v
set_found-IsSound (some e) status s v there =
    rw (update_pool_only_lem (put e.user_op_hash (set_status status e)) s)
      (set_status-IsSound e.user_op_hash e status s.standard_pool v (there e refl))

pub update_entry_status-IsSound :
    (which : UserOpOrHash) (status : EntryStatus) (s : State)
    → IsSound s.standard_pool
    → IsSound (update_entry_status which status s).standard_pool
unfolding update_entry_status
update_entry_status-IsSound which status s v =
    set_found-IsSound _ status s v (λ e. get-lookup_entry which e s.standard_pool v)

-- What stands under a hash once the entry that was looked up has the new status.
abbrev pub with_status : Option MempoolEntry → EntryStatus → String → State → Option MempoolEntry
with_status none status k s = find_by_hash k s
with_status (some e) status k s =
    if e.user_op_hash == k then some (set_status status e) else find_by_hash k s

find_by_hash-set_found :
    (o : Option MempoolEntry) (status : EntryStatus) (s : State) (k : String)
    → find_by_hash k (set_found o status s) ≡ with_status o status k s
unfolding set_found find_by_hash
find_by_hash-set_found none status s k = refl
find_by_hash-set_found (some e) status s k =
    rw (update_pool_only_lem (put e.user_op_hash (set_status status e)) s)
      (get-put e.user_op_hash k (set_status status e) s.standard_pool)

-- `updateEntryStatus` sets the status of the entry that it finds and changes no other entry; if it
-- finds none, it changes nothing.
pub find_by_hash-update_entry_status :
    (which : UserOpOrHash) (status : EntryStatus) (s : State) (k : String)
    → find_by_hash k (update_entry_status which status s)
      ≡ with_status (lookup_entry which s.standard_pool) status k s
unfolding update_entry_status
find_by_hash-update_entry_status which status s k =
    find_by_hash-set_found (lookup_entry which s.standard_pool) status s k

pub clear_state-IsSound : (s : State) → IsSound (clear_state s).standard_pool
unfolding clear_state
clear_state-IsSound s =
    rw (update_both_lem (λ _. []) (λ _ _. []) s)
      (record { keyed = tt; distinct = tt; one_per_slot = tt })

reputation_entries-set_found :
    (o : Option MempoolEntry) (status : EntryStatus) (s : State)
    → (set_found o status s).reputation_entries ≡ s.reputation_entries
unfolding set_found
reputation_entries-set_found none status s = refl
reputation_entries-set_found (some e) status s =
    rw (update_pool_only_lem (put e.user_op_hash (set_status status e)) s)

pub reputation_entries-update_entry_status :
    (which : UserOpOrHash) (status : EntryStatus) (s : State)
    → (update_entry_status which status s).reputation_entries ≡ s.reputation_entries
unfolding update_entry_status
reputation_entries-update_entry_status which status s =
    reputation_entries-set_found (lookup_entry which s.standard_pool) status s

set_at :
    (status : EntryStatus) (hash k : String) (s : State) (o : Option MempoolEntry)
    → IsSound s.standard_pool
    → get hash s.standard_pool ≡ o
    → with_status o status k s
      ≡ (if hash == k then Option.map (set_status status) (find_by_hash k s) else find_by_hash k s)
unfolding find_by_hash
set_at status hash k s none v g = ground (arith, eq_iff hash k)
set_at status hash k s (some e) v g =
    ground (arith, eq_iff hash k, get-Keyed hash e s.standard_pool v.keyed g)

-- Of a sound pool the entry under the hash gets the status, if there is one.
pub set_status_by_hash :
    (status : EntryStatus) (hash k : String) (s : State)
    → IsSound s.standard_pool
    → find_by_hash k (update_entry_status (by_hash hash) status s)
      ≡ (if hash == k then Option.map (set_status status) (find_by_hash k s) else find_by_hash k s)
unfolding lookup_entry
set_status_by_hash status hash k s v =
    find_by_hash-update_entry_status (by_hash hash) status s k
    ∙ set_at status hash k s (get hash s.standard_pool) v refl
