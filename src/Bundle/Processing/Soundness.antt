-- ===== src/Bundle/Processing/Soundness.antt =====
-- `sendBundle` and the pool.
use transeptor_bundler.Prelude.{
  String, Bool, true, false, List, [], ◌∷◌, at, Option, none, some, ◌==◌, if◌then◌else◌,
}
use transeptor_bundler.Types.{UserOperation, pending}
use transeptor_bundler.State.{State}
use transeptor_bundler.Mempool.Slots.{HasSound}
use transeptor_bundler.Mempool.Manager.{by_op}
use transeptor_bundler.Mempool.Manager.Removing.{remove_user_op-IsSound}
use transeptor_bundler.Mempool.Manager.Marking.{update_entry_status-IsSound}
use transeptor_bundler.Bundle.Processing.{
  SendOutcome, sent, failed_op, fatal, other_error, ban_entity, ban_if, after_crash, after_failure,
  crash, send_bundle,
}
use transeptor_bundler.Bundle.Processing.Crash.{ban_entity-IsSound}
use transeptor_bundler.Bundle.Creating.{HookConfig}

after_failure-IsSound :
    (ops : List UserOperation) (s : State) → HasSound s → HasSound (after_failure ops s)
unfolding after_failure
after_failure-IsSound [] s v = v
after_failure-IsSound (op ∷ ops) s v =
    after_failure-IsSound ops _ (update_entry_status-IsSound (by_op op) pending s v)

ban_if-IsSound :
    (address : Option String) (op : UserOperation) (s : State)
    → HasSound s
    → HasSound (ban_if address op s)
ban_if-IsSound none op s v = v
ban_if-IsSound (some address) op s v = unless (address == "")
  where
    unless : (b : Bool) → HasSound (if b then s else ban_entity address op s)
    unless true = v
    unless false = ban_entity-IsSound address op s v

after_crash-IsSound :
    (address : Option String) (op : UserOperation) (s : State)
    → HasSound s
    → HasSound (after_crash address op s)
unfolding after_crash
after_crash-IsSound address op s v =
    remove_user_op-IsSound (by_op op) _ (ban_if-IsSound address op s v)

module _ {Failure : Type 0} (config : HookConfig Failure) where
  pub send_bundle-IsSound :
      (outcome : SendOutcome) (ops : List UserOperation) (s : State)
      → HasSound s
      → HasSound (send_bundle config.manager.stake config.get_deposit_info outcome ops s).1
  unfolding send_bundle crash
  send_bundle-IsSound (sent hash hashes) ops s v = v
  send_bundle-IsSound (failed_op index reason) ops s v = crashed (at index ops)
    where
      crashed :
          (o : Option UserOperation)
          → HasSound (crash config.manager.stake config.get_deposit_info o reason s).1
      crashed none = v
      crashed (some op) = after_crash-IsSound _ op s v
  send_bundle-IsSound fatal ops s v = v
  send_bundle-IsSound other_error ops s v = after_failure-IsSound ops s v
