-- ===== src/Bundle/Manager/Soundness.antt =====
-- An attempt to bundle and the pool.
use transeptor_bundler.Prelude.{String, Bool, List, [], ◌∷◌, Option, none, some}
use transeptor_bundler.Types.{UserOperation}
use transeptor_bundler.State.{State}
use transeptor_bundler.Mempool.Slots.{IsSound, HasSound}
use transeptor_bundler.Event.{Watcher}
use transeptor_bundler.Bundle.Building.{BuilderConfig}
use transeptor_bundler.Bundle.Processing.{SendReturn, sent_bundle, not_sent}
use transeptor_bundler.Bundle.Creating.{HookConfig, BundleReadyToSend}
use transeptor_bundler.Bundle.Manager.{
  Answers, remember_tx, after_send, send_if, after_create, do_attempt_bundle,
}
use transeptor_bundler.Event.Soundness.{handle_past_events-IsSound}
use transeptor_bundler.Bundle.Processing.Soundness.{send_bundle-IsSound}
use transeptor_bundler.Bundle.Creating.Soundness.{create_bundle-IsSound}

remember_tx-IsSound : (hash : String) (s : State) → HasSound s → HasSound (remember_tx hash s)
unfolding remember_tx
remember_tx-IsSound hash s v = v

after_send-IsSound : (r : SendReturn × State) → HasSound r.1 → HasSound (after_send r).1
unfolding after_send
after_send-IsSound (sent_bundle hash hashes, s) v = remember_tx-IsSound hash s v
after_send-IsSound (not_sent, s) v = v
after_send-IsSound (SendReturn.raised, s) v = v

module _ {Failure : Type 0} (hook : HookConfig Failure) (builder : BuilderConfig Failure)
    (answers : Answers) where
  after_create-IsSound :
      (r : Option BundleReadyToSend × State)
      → HasSound r.1
      → HasSound (after_create hook builder answers r).1
  unfolding after_create send_if
  after_create-IsSound (none, s) v = v
  after_create-IsSound (some ready, s) v = sending ready.bundle
    where
      sending : (ops : List UserOperation) → HasSound (send_if hook builder answers ops s).1
      sending [] = v
      sending (op ∷ ops) =
          after_send-IsSound _ (send_bundle-IsSound hook (answers.send (op ∷ ops)) (op ∷ ops) s v)

  -- An attempt to bundle leaves a sound pool sound, whatever the events before it were and whether it
  -- sends a bundle, finds nothing to send, is refused by the entry point contract or throws.
  pub do_attempt_bundle-IsSound :
      (force : Bool) (w : Watcher) (s : State)
      → IsSound s.standard_pool
      → IsSound (do_attempt_bundle hook builder answers force w s).2.standard_pool
  unfolding do_attempt_bundle
  do_attempt_bundle-IsSound force w s v = after_create-IsSound _ (
      create_bundle-IsSound hook builder force _
        (handle_past_events-IsSound answers.query answers.current_block w s v))
