-- ===== src/Event/Soundness.antt =====
-- `handlePastEvents` and the pool.
use transeptor_bundler.Prelude.{ℕ, String, Bool, true, false, List, [], ◌∷◌, ◌++◌, some}
use transeptor_bundler.Types.{failed}
use transeptor_bundler.State.{State}
use transeptor_bundler.Mempool.Slots.{HasSound}
use transeptor_bundler.Mempool.Manager.{by_hash}
use transeptor_bundler.Mempool.Manager.Removing.{remove_user_op-IsSound}
use transeptor_bundler.Mempool.Manager.Marking.{update_entry_status-IsSound}
use transeptor_bundler.Event.{
  EventArgs, user_operation_event, account_deployed, signature_aggregator_changed, EventLog,
  Watcher, get_event_aggregator, settle, handle_args, handle_event, handle_events,
  handle_past_events, start_block,
}
use transeptor_bundler.Event.Effects.{pool-included_address}

settle-IsSound :
    (hash : String) (success : Bool) (s : State) → HasSound s → HasSound (settle hash success s)
unfolding settle
settle-IsSound hash true s v = remove_user_op-IsSound (by_hash hash) s v
settle-IsSound hash false s v = update_entry_status-IsSound (by_hash hash) failed s v

handle_args-IsSound :
    (args : EventArgs) (ev : EventLog) (w : Watcher) (s : State)
    → HasSound s
    → HasSound (handle_args args ev w s).1
unfolding handle_args
handle_args-IsSound (user_operation_event hash success sender paymaster) ev w s v =
    rw
      (
        pool-included_address (get_event_aggregator ev w).event_aggregator _,
        pool-included_address (some paymaster) _,
        pool-included_address (some sender) _,
      )
      (settle-IsSound hash success s v)
handle_args-IsSound (account_deployed factory) ev w s v =
    rw (pool-included_address (some factory) s) v
handle_args-IsSound (signature_aggregator_changed aggregator) ev w s v = v

handle_events-IsSound :
    (evs : List EventLog) (w : Watcher) (s : State)
    → HasSound s
    → HasSound (handle_events evs w s).1
unfolding handle_events handle_event
handle_events-IsSound [] w s v = v
handle_events-IsSound (ev ∷ evs) w s v =
    handle_events-IsSound evs _ _ (handle_args-IsSound ev.args ev w s v)

pub handle_past_events-IsSound :
    (query : ℕ → List EventLog × List EventLog × List EventLog) (current : ℕ) (w : Watcher)
    (s : State)
    → HasSound s
    → HasSound (handle_past_events query current w s).1
unfolding handle_past_events
handle_past_events-IsSound query current w s v =
    let from = start_block current w.last_block in
    handle_events-IsSound ((query from).0 ++ ((query from).1 ++ (query from).2))
      (record w { last_block = some from }) s v
