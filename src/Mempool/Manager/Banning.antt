-- ===== src/Mempool/Manager/Banning.antt =====
-- `removeUserOpsForBannedAddr`: which entries it takes out.
use transeptor_bundler.Prelude.{
  String, ◌≡◌, refl, ap, List, [], ◌∷◌, filter, includes, Option, none, some, arith, if◌then◌else◌,
}
use transeptor_bundler.Prelude.Dict.{get, values, get-remove}
use transeptor_bundler.Types.{MempoolEntry, StandardPool}
use transeptor_bundler.State.{State}
use transeptor_bundler.Mempool.Slots.{IsSound, remove-IsSound}
use transeptor_bundler.Mempool.Entries.{hashes, holds_at, includes-filter}
use transeptor_bundler.Mempool.Manager.{
  mentions, remove_entries, remove_counts, remove_user_ops_for_banned_addr, update_both_lem,
  find_by_hash,
}

remove_entries_lem :
    (ops : List MempoolEntry) (k : String) (pool : StandardPool)
    → get k (remove_entries ops pool) ≡ (if includes (hashes ops) k then none else get k pool)
unfolding remove_entries
remove_entries_lem [] k pool = refl
remove_entries_lem (e ∷ es) k pool =
    rw (remove_entries_lem es k, get-remove e.user_op_hash k pool) (ground arith)

remove_entries-IsSound :
    (ops : List MempoolEntry) (pool : StandardPool)
    → IsSound pool
    → IsSound (remove_entries ops pool)
unfolding remove_entries
remove_entries-IsSound [] pool v = v
remove_entries-IsSound (e ∷ es) pool v =
    remove_entries-IsSound es _ (remove-IsSound e.user_op_hash pool v)

abbrev pub unless_mentions : String → Option MempoolEntry → Option MempoolEntry
unless_mentions addr none = none
unless_mentions addr (some e) = if mentions addr e then none else some e

unless_lem :
    (addr : String) (o : Option MempoolEntry)
    → (if holds_at (mentions addr) o then none else o) ≡ unless_mentions addr o
unless_lem addr none = refl
unless_lem addr (some e) = refl

pool-banned :
    (addr : String) (s : State)
    → (remove_user_ops_for_banned_addr addr s).standard_pool
      ≡ remove_entries (filter (mentions addr) (values s.standard_pool)) s.standard_pool
unfolding remove_user_ops_for_banned_addr
pool-banned addr s =
    let ops = filter (mentions addr) (values s.standard_pool) in
    ap (λ x. x.standard_pool)
      (update_both_lem (remove_entries ops) (λ _ counts. remove_counts ops counts) s)

-- `removeUserOpsForBannedAddr` takes exactly the operations out of a sound pool whose sender,
-- paymaster or factory is the address, spelled in the same way.
pub find_by_hash-remove_user_ops_for_banned_addr :
    (addr : String) (s : State) (k : String)
    → IsSound s.standard_pool
    → find_by_hash k (remove_user_ops_for_banned_addr addr s)
      ≡ unless_mentions addr (find_by_hash k s)
unfolding find_by_hash
find_by_hash-remove_user_ops_for_banned_addr addr s k v =
    let ops = filter (mentions addr) (values s.standard_pool) in
    rw
      (
        pool-banned addr s,
        remove_entries_lem ops k s.standard_pool,
        includes-filter (mentions addr) s.standard_pool k v.keyed v.distinct,
      )
      (unless_lem addr (get k s.standard_pool))

pub remove_user_ops_for_banned_addr-IsSound :
    (addr : String) (s : State)
    → IsSound s.standard_pool
    → IsSound (remove_user_ops_for_banned_addr addr s).standard_pool
remove_user_ops_for_banned_addr-IsSound addr s v =
    rw (pool-banned addr s) (remove_entries-IsSound _ s.standard_pool v)

pub white_list-remove_user_ops_for_banned_addr :
    (addr : String) (s : State) → (remove_user_ops_for_banned_addr addr s).white_list ≡ s.white_list
unfolding remove_user_ops_for_banned_addr
white_list-remove_user_ops_for_banned_addr addr s =
    let ops = filter (mentions addr) (values s.standard_pool) in
    ap (λ x. x.white_list)
      (update_both_lem (remove_entries ops) (λ _ counts. remove_counts ops counts) s)
