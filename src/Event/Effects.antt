-- ===== src/Event/Effects.antt =====
-- `handleEvent`: what an event does to the pool and to the reputations.
use mathlib.Core.Option
use transeptor_bundler.Prelude.{
  ◌≤◌, String, ◌≡◌, refl, ap, ◌∙◌, Bool, true, false, ◌==◌, Option, none, some, arith, inl, inr,
  Bool-cases, ltb, if◌then◌else◌,
}
use transeptor_bundler.Prelude.Dict.{get}
use transeptor_bundler.Prelude.Text.{text_length}
use transeptor_bundler.Types.{failed, MempoolEntry}
use transeptor_bundler.State.{State}
use transeptor_bundler.Reputation.Updates.{pool-update_included_status}
use transeptor_bundler.Mempool.Slots.{IsSound}
use transeptor_bundler.Mempool.Manager.{by_hash, set_status, find_by_hash}
use transeptor_bundler.Mempool.Manager.Removing.{reputation_entries-remove_user_op, remove_by_hash}
use transeptor_bundler.Mempool.Manager.Marking.{
  reputation_entries-update_entry_status, set_status_by_hash,
}
use transeptor_bundler.Event.{
  EventArgs, user_operation_event, account_deployed, signature_aggregator_changed, EventLog,
  Watcher, get_event_aggregator, included_address, settle, handle_args, handle_event, same_text,
}

-- An address is '0x' and 40 digits.
abbrev pub IsShort : Option String → Type 0
IsShort none = Unit
IsShort (some a) = text_length a ≤ 42

abbrev pub ShortArgs : EventArgs → Type 0
ShortArgs (user_operation_event hash success sender paymaster) =
    IsShort (some sender) × IsShort (some paymaster)
ShortArgs (account_deployed factory) = IsShort (some factory)
ShortArgs (signature_aggregator_changed aggregator) = IsShort (some aggregator)

included_address-short : (a : Option String) (s : State) → IsShort a → included_address a s ≡ s
unfolding included_address
included_address-short none s h = refl
included_address-short (some a) s h = ground arith

reputation_entries-settle :
    (hash : String) (success : Bool) (s : State)
    → (settle hash success s).reputation_entries ≡ s.reputation_entries
unfolding settle
reputation_entries-settle hash true s = reputation_entries-remove_user_op (by_hash hash) s
reputation_entries-settle hash false s =
    reputation_entries-update_entry_status (by_hash hash) failed s

aggregator-IsShort :
    (ev : EventLog) (w : Watcher)
    → IsShort w.event_aggregator
    → IsShort (get_event_aggregator ev w).event_aggregator
aggregator-IsShort ev w h =
    elim (Bool-cases (same_text (some ev.transaction_hash) w.event_aggregator_tx_hash)) [
      | inl same ↦ rw same h
      | inr other ↦ rw other tt
    ]

reputation_entries-handle_args :
    (args : EventArgs) (ev : EventLog) (w : Watcher) (s : State)
    → ShortArgs args
    → IsShort w.event_aggregator
    → (handle_args args ev w s).1.reputation_entries ≡ s.reputation_entries
unfolding handle_args
reputation_entries-handle_args (user_operation_event hash success sender paymaster) ev w s (h, k)
      l =
    rw
      (
        included_address-short (get_event_aggregator ev w).event_aggregator _
            (aggregator-IsShort ev w l),
        included_address-short (some paymaster) _ k,
        included_address-short (some sender) _ h,
      )
      (reputation_entries-settle hash success s)
reputation_entries-handle_args (account_deployed factory) ev w s h l =
    rw (included_address-short (some factory) s h)
reputation_entries-handle_args (signature_aggregator_changed aggregator) ev w s h l = refl

-- No event ever counts an inclusion: if the addresses of an event, and the aggregator that is
-- remembered, are no longer than an address, then the reputations stay as they were.
pub reputation_entries-handle_event :
    (ev : EventLog) (w : Watcher) (s : State)
    → ShortArgs ev.args
    → IsShort w.event_aggregator
    → (handle_event ev w s).1.reputation_entries ≡ s.reputation_entries
unfolding handle_event
reputation_entries-handle_event ev w s h l = reputation_entries-handle_args ev.args ev w s h l

pub pool-included_address :
    (a : Option String) (s : State) → (included_address a s).standard_pool ≡ s.standard_pool
unfolding included_address
pool-included_address none s = refl
pool-included_address (some a) s = elim (Bool-cases (ltb 42 (text_length a))) [
  | inl long ↦ rw long (pool-update_included_status _ s)
  | inr short ↦ rw short
]

-- What is left of an entry once its operation was executed.
abbrev pub settled : Bool → Option MempoolEntry → Option MempoolEntry
settled true o = none
settled false o = Option.map (set_status failed) o

settle_found :
    (hash k : String) (success : Bool) (s : State)
    → IsSound s.standard_pool
    → find_by_hash k (settle hash success s)
      ≡ (if hash == k then settled success (find_by_hash k s) else find_by_hash k s)
unfolding settle
settle_found hash k true s v = remove_by_hash hash k s v
settle_found hash k false s v = set_status_by_hash failed hash k s v

pool-handle_event :
    (ev : EventLog) (hash sender paymaster : String) (success : Bool) (w : Watcher) (s : State)
    → ev.args ≡ user_operation_event hash success sender paymaster
    → (handle_event ev w s).1.standard_pool ≡ (settle hash success s).standard_pool
unfolding handle_event handle_args
pool-handle_event ev hash sender paymaster success w s h = rw h (
    pool-included_address (get_event_aggregator ev w).event_aggregator _
    ∙ pool-included_address (some paymaster) _
    ∙ pool-included_address (some sender) _)

-- A UserOperationEvent takes the entry of a successful operation out of a sound pool and marks that of
-- a failed one 'failed'; every other entry stays as it was.
pub find_by_hash-handle_event :
    (ev : EventLog) (hash sender paymaster : String) (success : Bool) (w : Watcher) (s : State)
    (k : String)
    → ev.args ≡ user_operation_event hash success sender paymaster
    → IsSound s.standard_pool
    → find_by_hash k (handle_event ev w s).1
      ≡ (if hash == k then settled success (find_by_hash k s) else find_by_hash k s)
unfolding find_by_hash
find_by_hash-handle_event ev hash sender paymaster success w s k h v =
    ap (get k) (pool-handle_event ev hash sender paymaster success w s h)
    ∙ settle_found hash k success s v
