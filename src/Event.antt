-- ===== src/Event.antt =====
-- event/event-manager.ts: what the bundler does with the events of the entry point contract, and
-- which logs of a transaction belong to a user operation. The contract's interface, which gives the
-- topic of an event, is a parameter.
pub mod Logs
pub mod Effects
pub mod Soundness
use transeptor_bundler.Prelude.{
  ℕ, ◌+◌, ◌-◌, String, Bool, true, false, ◌==◌, List, [], ◌∷◌, ◌++◌, at, slice, max, ltb, eqb,
  Option, none, some, if◌then◌else◌,
}
use transeptor_bundler.Prelude.Text.{text_length, text_take}
use transeptor_bundler.Types.{EntryStatus, failed}
use transeptor_bundler.Outcome.{Either, left, right}
use transeptor_bundler.State.{State, or_else}
use transeptor_bundler.Reputation.{update_included_status}
use transeptor_bundler.Mempool.Manager.{UserOpOrHash, by_hash, remove_user_op, update_entry_status}

-- The arguments of an event of the entry point contract, by its name.
pub data EventArgs : Type 0 where
  user_operation_event : String → Bool → String → String → EventArgs
  account_deployed : String → EventArgs
  signature_aggregator_changed : String → EventArgs

pub record EventLog : Type 0 where
  pub args : EventArgs
  pub transaction_hash : String
  pub block_number : ℕ

-- The variables of the event manager.
pub record Watcher : Type 0 where
  pub last_block : Option ℕ
  pub event_aggregator : Option String
  pub event_aggregator_tx_hash : Option String

abbrev pub same_text : Option String → Option String → Bool
same_text none none = true
same_text none (some b) = false
same_text (some a) none = false
same_text (some a) (some b) = a == b

-- `getEventAggregator` forgets the aggregator of another transaction.
abbrev pub get_event_aggregator : EventLog → Watcher → Watcher
get_event_aggregator ev w =
    if same_text (some ev.transaction_hash) w.event_aggregator_tx_hash
    then w
    else record w { event_aggregator = none; event_aggregator_tx_hash = some ev.transaction_hash }

pub included_address : Option String → State → State
included_address none s = s
included_address (some data') s =
    if ltb 42 (text_length data') then update_included_status (text_take 42 data') s else s

-- The first part of `handleUserOperationEvent`.
unfoldable pub settle : String → Bool → State → State
settle hash success s =
    if success
    then (remove_user_op (by_hash hash) s).1
    else update_entry_status (by_hash hash) failed s

unfoldable pub handle_args : EventArgs → EventLog → Watcher → State → Watcher × State
unfolding settle
handle_args (user_operation_event hash success sender paymaster) ev w s =
    let w' = get_event_aggregator ev w in
    (
      w',
      included_address w'.event_aggregator (
          included_address (some paymaster)
            (included_address (some sender) (settle hash success s))),
    )
handle_args (account_deployed factory) ev w s = (w, included_address (some factory) s)
handle_args (signature_aggregator_changed aggregator) ev w s = (
  record w {
    event_aggregator = some aggregator;
    event_aggregator_tx_hash = some ev.transaction_hash;
  },
  s,
)

unfoldable pub handle_event : EventLog → Watcher → State → Watcher × State
handle_event ev w s =
    let r = handle_args ev.args ev w s in
    (record r.0 { last_block = some (ev.block_number + 1) }, r.1)

unfoldable pub handle_events : List EventLog → Watcher → State → Watcher × State
handle_events [] w s = (w, s)
handle_events (ev ∷ evs) w s = let r = handle_event ev w s in handle_events evs r.0 r.1

abbrev last_1000_blocks : ℕ
last_1000_blocks = 1000

-- if (!lastBlock) lastBlock = Math.max(1, current - 1000)
abbrev pub start_block : ℕ → Option ℕ → ℕ
start_block current none = max 1 (current - last_1000_blocks)
start_block current (some n) = if eqb n 0 then max 1 (current - last_1000_blocks) else n

-- `query` gives the events (logs with arguments) of each of the three filters from a block on; they
-- are handled filter by filter.
unfoldable pub handle_past_events :
    (ℕ → List EventLog × List EventLog × List EventLog) → ℕ → Watcher → State → Watcher × State
unfolding handle_events
handle_past_events query current w s =
    let from = start_block current w.last_block in
    let (operations, deployments, aggregators) = query from in
    handle_events (operations ++ (deployments ++ aggregators)) (record w { last_block = some from })
      s

-- ethers.Log
pub record Log : Type 0 where
  pub topics : List String
  pub payload : String

pub data FilterError : Type 0 where
  no_before_execution no_user_operation_event : FilterError

-- startIndex and endIndex, where -1 is `none`
pub record Range : Type 0 where
  pub start_index : Option ℕ
  pub end_index : Option ℕ

abbrev is_none {ℓ} : {A : Type ℓ} → Option A → Bool
is_none none = true
is_none (some a) = false

-- One round of the `forEach` of `filterLogs`, for the topics of the operation's own event.
pub mark_log : String → List String → ℕ → Log → Range → Range
mark_log before_execution own index log r =
    if same_text (at 0 log.topics) (some before_execution)
    then record { start_index = some index; end_index = some index }
    else if same_text (at 0 log.topics) (at 0 own)
    then if same_text (at 1 log.topics) (at 1 own)
      then record r { end_index = some index }
      else if is_none r.end_index
      then record r { start_index = some index }
      else r
    else r

pub mark_logs : String → List String → ℕ → List Log → Range → Range
mark_logs before_execution own index [] r = r
mark_logs before_execution own index (log ∷ logs) r =
    mark_logs before_execution own (index + 1) logs (mark_log before_execution own index log r)

abbrev after : Option ℕ → ℕ
after none = 0
after (some i) = i + 1

-- logs.slice(startIndex + 1, endIndex), unless endIndex is still -1
abbrev cut : List Log → Range → Option ℕ → Either FilterError (List Log)
cut logs r none = left no_user_operation_event
cut logs r (some end') = right (slice (after r.start_index) end' logs)

pub filter_logs : Option String → List String → List Log → Either FilterError (List Log)
unfolding mark_logs
filter_logs none own logs = left no_before_execution
filter_logs (some before_execution) own logs =
    let r =
      mark_logs before_execution own 0 logs (record { start_index = none; end_index = none }) in
    cut logs r r.end_index
