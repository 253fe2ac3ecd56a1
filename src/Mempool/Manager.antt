-- ===== src/Mempool/Manager.antt =====
-- mempool/mempool-manager.ts: the pool's operations over the store.
pub mod Adding
pub mod Pending
pub mod Removing
pub mod Banning
pub mod Marking
pub mod Runs
use mathlib.Core.Option
use transeptor_bundler.Prelude.{
  ℕ, ◌+◌, ◌-◌, String, ◌≡◌, refl, Bool, true, false, ◌&&◌, ◌||◌, ◌==◌, List, [], ◌∷◌, map, filter,
  length, leb, ltb, eqb, Option, none, some, arith, if◌then◌else◌,
}
use transeptor_bundler.Prelude.Dict.{Dict, get, put, remove, values, keys}
use transeptor_bundler.Types.{
  UserOperation, StakeInfo, ReferencedCodeHashes, EntryStatus, bundling, pending, bundled, failed,
  MempoolEntry, StandardPool, EntryCount,
}
use transeptor_bundler.Errors.{RpcError, account}
use transeptor_bundler.Outcome.{Result, returned, thrown, ◌>>=◌, ◌>>◌, Either, left, right}
use transeptor_bundler.State.{
  State, StateKey, Partial, empty, pick, keys_of, assign, or_else, apply_update,
}
use transeptor_bundler.Reputation.{SeenAction, increment, decrement, update_seen_status}
use transeptor_bundler.Reputation.Checks.{StakeConfig, check_stake}
use transeptor_bundler.Deposit.{check_paymaster_deposit}
use transeptor_bundler.Mempool.{
  MempoolEntryMetadata, MempoolEntryWithMetadata, do_update_mempool_state, find_by_sender_nonce,
}
use transeptor_bundler.Mempool.Admission.{replace_or_add_user_op_checks}

-- `balanceOf` is the entry point contract's.
pub record ManagerConfig : Type 0 where
  pub stake : StakeConfig
  pub balance_of : String → ℕ
  pub bundle_size : ℕ

pub record RelayUserOpParam : Type 0 where
  pub user_op : UserOperation
  pub user_op_hash : String
  pub prefund : ℕ
  pub referenced_contracts : ReferencedCodeHashes
  pub sender_info : StakeInfo
  pub paymaster_info : Option StakeInfo
  pub factory_info : Option StakeInfo
  pub aggregator_info : Option StakeInfo

-- A state update of the pool and the counts, and one of the pool alone.
pub update_both : (StandardPool → EntryCount → Partial) → State → State
unfolding apply_update pick keys_of assign
update_both f s =
    (apply_update (StateKey.standard_pool ∷ StateKey.mempool_entry_count ∷ [])
      (λ cur. f (or_else cur.standard_pool []) (or_else cur.mempool_entry_count [])) s).1

pub update_pool_only : (StandardPool → StandardPool) → State → State
unfolding apply_update pick keys_of assign
update_pool_only f s =
    (apply_update (StateKey.standard_pool ∷ [])
      (λ cur. record empty { standard_pool = Option.map f cur.standard_pool }) s).1

pub update_pool_only_lem :
    (f : StandardPool → StandardPool) (s : State)
    → update_pool_only f s ≡ record s { standard_pool = f s.standard_pool }
unfolding update_pool_only
update_pool_only_lem f s = refl

abbrev pub both : StandardPool → EntryCount → Partial
both pool counts = record empty { standard_pool = some pool; mempool_entry_count = some counts }

pub update_both_lem :
    (f : StandardPool → StandardPool) (g : StandardPool → EntryCount → EntryCount) (s : State)
    → update_both (λ pool counts. both (f pool) (g pool counts)) s ≡ record s {
      standard_pool = f s.standard_pool;
      mempool_entry_count = g s.standard_pool s.mempool_entry_count;
    }
unfolding update_both
update_both_lem f g s = refl

-- The `try` of `updateSeenStatus`: an `RpcError` of `checkStake` is dropped.
sender_seen : Result (Unit {0}) → String → State → State
sender_seen (returned _) sender s = update_seen_status (some sender) increment s
sender_seen (thrown _) sender s = s

-- `updateSeenStatus` of mempool-helper.ts: the sender is counted up, whatever the action, if
-- `checkStake` does not throw; the aggregator, paymaster and factory follow the action.
pub update_seen_statuses :
    StakeConfig → Option String → UserOperation → StakeInfo → SeenAction → State → State
unfolding sender_seen
update_seen_statuses config aggregator op sender_info action s =
    let s' = sender_seen (check_stake config account (some sender_info) s) op.sender s in
    update_seen_status op.factory action
      (update_seen_status op.paymaster action (update_seen_status aggregator action s'))

abbrev pub aggregator_of : Option StakeInfo → Option String
aggregator_of none = none
aggregator_of (some info) = some info.addr

abbrev pub new_entry : RelayUserOpParam → MempoolEntry
new_entry p = record {
  user_op = p.user_op;
  user_op_hash = p.user_op_hash;
  prefund = p.prefund;
  referenced_contracts = p.referenced_contracts;
  status = pending;
  aggregator = aggregator_of p.aggregator_info;
}

abbrev pub new_metadata : RelayUserOpParam → MempoolEntryMetadata
new_metadata p = record {
  sender_info = p.sender_info;
  paymaster_info = p.paymaster_info;
  factory_info = p.factory_info;
  aggregator_info = p.aggregator_info;
  old_entry = none;
}

unsee_old : ManagerConfig → RelayUserOpParam → Option MempoolEntry → State → State
unsee_old config p none s = s
unsee_old config p (some old) s =
    update_seen_statuses config.stake old.aggregator old.user_op p.sender_info decrement s

-- What `addUserOp` does once the checks have passed.
pub store_entry :
    ManagerConfig → RelayUserOpParam → MempoolEntry → MempoolEntryMetadata → State → State
unfolding unsee_old
store_entry config p entry metadata s =
    let stored = update_both (do_update_mempool_state (entry, metadata)) s in
    let undone = unsee_old config p metadata.old_entry stored in
    update_seen_statuses config.stake (aggregator_of p.aggregator_info) p.user_op p.sender_info
      increment undone

-- `res.foldAsync`, and the exceptions of the checks.
unfoldable pub conclude :
    ManagerConfig
    → RelayUserOpParam
    → Result (Either RpcError MempoolEntryWithMetadata)
    → State
    → Result (Either RpcError String) × State
conclude config p (thrown e) s = (thrown e, s)
conclude config p (returned (left e)) s = (returned (left e), s)
conclude config p (returned (right (entry, metadata))) s =
    (returned (right p.user_op_hash), store_entry config p entry metadata s)

unfoldable pub add_user_op :
    ManagerConfig → RelayUserOpParam → State → Result (Either RpcError String) × State
add_user_op config p s =
    conclude config p
      (check_paymaster_deposit config.balance_of p.user_op s
        >> replace_or_add_user_op_checks config.stake s.mempool_entry_count s s.standard_pool
            (new_entry p, new_metadata p))
      s

unfoldable pub find_by_hash : String → State → Option MempoolEntry
find_by_hash hash s = get hash s.standard_pool

-- string | UserOperation
pub data UserOpOrHash : Type 0 where
  by_hash : String → UserOpOrHash
  by_op : UserOperation → UserOpOrHash

unfoldable pub lookup_entry : UserOpOrHash → StandardPool → Option MempoolEntry
lookup_entry (by_hash hash) pool = get hash pool
lookup_entry (by_op op) pool = find_by_sender_nonce op.sender op.nonce pool

-- The sender's count is kept under the sender as the operation spells it.
abbrev pub drop_count : String → EntryCount → EntryCount
drop_count sender counts =
    let count = or_else (get sender counts) 0 - 1 in
    if leb count 0 then remove sender counts else put sender count counts

unfoldable pub remove_found : Option MempoolEntry → State → Bool × State
remove_found none s = (false, s)
remove_found (some entry) s = (
  true,
  update_both
      (λ pool counts.
        both (remove entry.user_op_hash pool) (drop_count entry.user_op.sender counts))
      s,
)

unfoldable pub remove_user_op : UserOpOrHash → State → Bool × State
unfolding remove_found
remove_user_op which s = remove_found (lookup_entry which s.standard_pool) s

abbrev is_text : String → Option String → Bool
is_text a none = false
is_text a (some b) = b == a

abbrev pub mentions : String → MempoolEntry → Bool
mentions addr e =
    e.user_op.sender == addr || is_text addr e.user_op.paymaster || is_text addr e.user_op.factory

abbrev remove_if : Option String → EntryCount → EntryCount
remove_if none counts = counts
remove_if (some a) counts = if a == "" then counts else remove a counts

remove_entries : List MempoolEntry → StandardPool → StandardPool
remove_entries [] pool = pool
remove_entries (e ∷ es) pool = remove_entries es (remove e.user_op_hash pool)

remove_counts : List MempoolEntry → EntryCount → EntryCount
remove_counts [] counts = counts
remove_counts (e ∷ es) counts =
    remove_counts es
      (remove_if e.user_op.factory (remove_if e.user_op.paymaster (remove e.user_op.sender counts)))

pub remove_user_ops_for_banned_addr : String → State → State
remove_user_ops_for_banned_addr addr s =
    let ops = filter (mentions addr) (values s.standard_pool) in
    update_both (λ pool counts. both (remove_entries ops pool) (remove_counts ops counts)) s

abbrev pub is_pending : EntryStatus → Bool
is_pending pending = true
is_pending bundling = false
is_pending bundled = false
is_pending failed = false

-- The `forEach` of `getNextPending`: the first `bundleSize` pending entries.
unfoldable pub take_pending : ℕ → ℕ → List MempoolEntry → List MempoolEntry
take_pending size count [] = []
take_pending size count (e ∷ es) =
    let taken = e ∷ take_pending size (count + 1) es in
    let skipped = take_pending size count es in
    if ltb count size && is_pending e.status then taken else skipped

-- standardPool[hash].status = 'bundling', in place; every hash is a key of the pool.
abbrev pub set_status : EntryStatus → MempoolEntry → MempoolEntry
set_status status e = record e { status = status }

mark_one : String → Option MempoolEntry → StandardPool → StandardPool
mark_one h none pool = pool
mark_one h (some e) pool = put h (set_status bundling e) pool

pub mark_bundling : List String → StandardPool → StandardPool
unfolding mark_one
mark_bundling [] pool = pool
mark_bundling (h ∷ hs) pool = mark_bundling hs (mark_one h (get h pool) pool)

-- The entries that are returned are the objects of the pool, so their status has changed too.
abbrev pub hand_out : List MempoolEntry → State → List MempoolEntry × State
hand_out found s = (
  map (set_status bundling) found,
  update_pool_only (mark_bundling (map (λ e. e.user_op_hash) found)) s,
)

unfoldable pub get_next_pending : ManagerConfig → State → List MempoolEntry × State
get_next_pending config s = hand_out (take_pending config.bundle_size 0 (values s.standard_pool)) s

pub get_all_pending : State → List MempoolEntry × State
get_all_pending s = hand_out (filter (λ e. is_pending e.status) (values s.standard_pool)) s

set_found : Option MempoolEntry → EntryStatus → State → State
set_found none status s = s
set_found (some entry) status s =
    update_pool_only (put entry.user_op_hash (set_status status entry)) s

pub update_entry_status : UserOpOrHash → EntryStatus → State → State
unfolding set_found
update_entry_status which status s = set_found (lookup_entry which s.standard_pool) status s

pub size : State → ℕ
size s = length (keys s.standard_pool)

pub is_mempool_overloaded : ManagerConfig → State → Bool
unfolding size
is_mempool_overloaded config s = leb config.bundle_size (size s)

pub clear_state : State → State
clear_state s = update_both (λ pool counts. both [] []) s

pub dump : State → List UserOperation
dump s = map (λ e. e.user_op) (values s.standard_pool)
