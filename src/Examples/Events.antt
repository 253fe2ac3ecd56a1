-- ===== src/Examples/Events.antt =====
-- Tests of the event manager.
use transeptor_bundler.Prelude.{◌≡◌, refl, false, String, List, [], ◌∷◌, none, some, arith}
use transeptor_bundler.Outcome.{right}
use transeptor_bundler.Mempool.Manager.{find_by_hash}
use transeptor_bundler.Event.{
  EventLog, user_operation_event, Watcher, handle_event, Log, filter_logs,
}
use transeptor_bundler.Event.Effects.{
  reputation_entries-handle_event, find_by_hash-handle_event, settled,
}
use transeptor_bundler.Event.Logs.{filter_logs-between}
use transeptor_bundler.Examples.{two_entries, two_entries-IsSound}

abbrev alice : String
alice = "0x00000000000000000000000000000000000000A1"

abbrev executed : EventLog
executed = record {
  args = user_operation_event "h1" false alice alice;
  transaction_hash = "t1";
  block_number = 12;
}

abbrev watcher : Watcher
watcher = record { last_block = none; event_aggregator = none; event_aggregator_tx_hash = none }

reputation_entries-handle_event_example :
    (handle_event executed watcher two_entries).1.reputation_entries
    ≡ two_entries.reputation_entries
reputation_entries-handle_event_example =
    reputation_entries-handle_event executed watcher two_entries (omega arith, omega arith) tt

find_by_hash-handle_event_example :
    find_by_hash "h1" (handle_event executed watcher two_entries).1
    ≡ settled false (find_by_hash "h1" two_entries)
find_by_hash-handle_event_example =
    find_by_hash-handle_event executed "h1" alice alice false watcher two_entries "h1" refl
      two_entries-IsSound

abbrev log : List String → Log
log topics = record { topics = topics; payload = "" }

-- The events of two operations: the logs of the second one come with those of the first.
filter_logs-between_example :
    filter_logs (some "before") ("op" ∷ "h2" ∷ []) (
      log ("before" ∷ [])
      ∷ log ("transfer" ∷ [])
      ∷ log ("op" ∷ "h1" ∷ [])
      ∷ log ("approve" ∷ [])
      ∷ log ("op" ∷ "h2" ∷ [])
      ∷ [])
    ≡ right (log ("transfer" ∷ []) ∷ log ("op" ∷ "h1" ∷ []) ∷ log ("approve" ∷ []) ∷ [])
filter_logs-between_example =
    filter_logs-between "before" ("op" ∷ "h2" ∷ []) []
      (log ("transfer" ∷ []) ∷ log ("op" ∷ "h1" ∷ []) ∷ log ("approve" ∷ []) ∷ []) []
      (log ("before" ∷ [])) (log ("op" ∷ "h2" ∷ [])) refl
      ((refl, refl), ((refl, refl), ((refl, refl), tt))) refl refl tt
