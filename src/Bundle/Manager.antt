-- ===== src/Bundle/Manager.antt =====
-- bundle/bundle-manager.ts: an attempt to bundle, from the events since the last one to the bundle that is
-- sent. The interval and the mutex of the automatic mode make the attempts follow one another.
pub mod Automation
pub mod Soundness
use mathlib.Core.Option
use transeptor_bundler.Prelude.{ℕ, String, Bool, List, [], ◌∷◌, Option, none, some}
use transeptor_bundler.Prelude.Dict.{put}
use transeptor_bundler.Types.{UserOperation, BundleTxStatus, pending, PendingTxDetails, BundleTxs}
use transeptor_bundler.State.{State, StateKey, Partial, empty, pick, keys_of, assign, apply_update}
use transeptor_bundler.Event.{EventLog, Watcher, handle_past_events}
use transeptor_bundler.Bundle.Building.{BuilderConfig}
use transeptor_bundler.Bundle.Processing.{
  SendOutcome, SendReturn, sent_bundle, not_sent, raised, send_bundle,
}
use transeptor_bundler.Bundle.Creating.{HookConfig, BundleReadyToSend, create_bundle}

-- What the node answers during an attempt: the events from a block on, its current block, and how
-- sending a bundle ends.
pub record Answers : Type 0 where
  pub query : ℕ → List EventLog × List EventLog × List EventLog
  pub current_block : ℕ
  pub send : List UserOperation → SendOutcome

-- What is returned, or that an error is thrown.
pub data AttemptResult : Type 0 where
  attempted : String → List String → AttemptResult
  failed_attempt : AttemptResult

abbrev signer_index : ℕ
signer_index = 0

-- The transaction is remembered as pending.
unfoldable pub remember_tx : String → State → State
unfolding apply_update pick keys_of assign
remember_tx hash s =
    (apply_update (StateKey.bundle_txs ∷ [])
      (λ cur. record empty {
        bundle_txs =
            Option.map
              (put hash (record {
                tx_hash = hash;
                signer_index = signer_index;
                status = BundleTxStatus.pending;
              }))
              cur.bundle_txs;
      })
      s).1

unfoldable pub after_send : SendReturn × State → AttemptResult × State
after_send (sent_bundle hash hashes, s) = (attempted hash hashes, remember_tx hash s)
after_send (not_sent, s) = (attempted "" [], s)
after_send (raised, s) = (failed_attempt, s)

module _ {Failure : Type 0} (hook : HookConfig Failure) (builder : BuilderConfig Failure)
    (answers : Answers) where
  unfoldable pub send_if : List UserOperation → State → AttemptResult × State
  unfolding after_send
  send_if [] s = (attempted "" [], s)
  send_if (op ∷ ops) s =
      after_send (
        send_bundle hook.manager.stake hook.get_deposit_info (answers.send (op ∷ ops)) (op ∷ ops) s)

  unfoldable pub after_create : Option BundleReadyToSend × State → AttemptResult × State
  unfolding send_if
  after_create (none, s) = (failed_attempt, s)
  after_create (some ready, s) = send_if ready.bundle s

  unfoldable pub do_attempt_bundle : Bool → Watcher → State → Watcher × AttemptResult × State
  unfolding after_create
  do_attempt_bundle force w s =
      let (w', flushed) = handle_past_events answers.query answers.current_block w s in
      let (result, s') = after_create (create_bundle hook builder force flushed) in (w', result, s')
