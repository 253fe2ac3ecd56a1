-- ===== src/Bundle/Creating.antt =====
-- bundle/builder/bundle-builder.ts: `createBundle`, from the entries of the pool to the bundle, and the
-- hook that deals with the entries that are not in it. What an error of a validation says is read by
-- `parseFailedOpRevert` and `checkFatal` from texts of the node: two parameters.
pub mod Returning
pub mod Soundness
use transeptor_bundler.Prelude.{
  ℕ, String, Bool, true, false, List, [], ◌∷◌, eqb, Option, none, some, if◌then◌else◌,
}
use transeptor_bundler.Types.{
  Eip7702Authorization, UserOperation, MempoolEntry, StorageMap, pending,
}
use transeptor_bundler.State.{State}
use transeptor_bundler.Reputation.{increment, decrement, update_seen_status}
use transeptor_bundler.Reputation.Checks.{DepositInfo}
use transeptor_bundler.Mempool.{get_known_senders}
use transeptor_bundler.Mempool.Manager.{
  ManagerConfig, by_hash, remove_user_op, get_next_pending, get_all_pending, update_entry_status,
  size,
}
use transeptor_bundler.Bundle.Building.{
  RemoveReason, failed_2nd_validation, banned, RemoveUserOpDetails, BundleBuilderResult,
  BuilderConfig, initial, build_bundle,
}
use transeptor_bundler.Bundle.Processing.{find_entity_to_blame}

-- What the hook is given besides.
pub record HookConfig (Failure : Type 0) : Type 0 where
  pub manager : ManagerConfig
  pub get_deposit_info : String → DepositInfo
  pub parse_failed_op : Failure → Option (ℕ × String)
  pub is_fatal : Failure → Bool

-- The first loop of `afterHook`.
unfoldable pub return_all : List String → State → State
return_all [] s = s
return_all (hash ∷ hashes) s = return_all hashes (update_entry_status (by_hash hash) pending s)

-- `addr !== null` always holds: without an address only the last call has no effect.
pub blame : Option String → UserOperation → State → State
blame addr op s = update_seen_status addr increment (
    update_seen_status op.factory decrement
      (update_seen_status op.paymaster decrement (update_seen_status (some op.sender) decrement s)))

-- Whether the loop goes on, ends the hook, or an error is thrown.
pub data HookEnd : Type 0 where
  finished stopped raised : HookEnd

pub record BundleReadyToSend : Type 0 where
  pub bundle : List UserOperation
  pub storage_map : StorageMap
  pub eip7702_tuples : List Eip7702Authorization

abbrev no_bundle : BundleReadyToSend
no_bundle = record { bundle = []; storage_map = []; eip7702_tuples = [] }

module _ {Failure : Type 0} (config : HookConfig Failure) where
  unfoldable pub remove_marked_op : String → State → State
  remove_marked_op hash s = (remove_user_op (by_hash hash) s).1

  -- A failed validation, by what is read of its error.
  unfoldable pub on_failure :
      Option (ℕ × String) → Failure → RemoveUserOpDetails Failure → State → HookEnd × State
  on_failure none failure d s =
      if config.is_fatal failure then (raised, s) else (stopped, remove_marked_op d.user_op_hash s)
  on_failure (some (index, reason)) failure d s = (
    finished,
    remove_marked_op d.user_op_hash (
        blame (find_entity_to_blame config.manager.stake config.get_deposit_info reason d.user_op)
          d.user_op s),
  )

  unfoldable pub remove_one :
      RemoveReason → Option Failure → RemoveUserOpDetails Failure → State → HookEnd × State
  unfolding on_failure
  remove_one failed_2nd_validation (some failure) d s =
      on_failure (config.parse_failed_op failure) failure d s
  remove_one failed_2nd_validation none d s = (finished, remove_marked_op d.user_op_hash s)
  remove_one banned err d s = (finished, remove_marked_op d.user_op_hash s)

  -- The second loop of `afterHook`, after a first round.
  unfoldable pub go_on : HookEnd × State → (State → HookEnd × State) → HookEnd × State
  go_on (finished, s) rest = rest s
  go_on (stopped, s) rest = (stopped, s)
  go_on (raised, s) rest = (raised, s)

  unfoldable pub remove_all : List (RemoveUserOpDetails Failure) → State → HookEnd × State
  unfolding remove_one go_on
  remove_all [] s = (finished, s)
  remove_all (d ∷ ds) s = go_on (remove_one d.reason d.err d s) (remove_all ds)

  unfoldable pub after_hook :
      List String → List (RemoveUserOpDetails Failure) → State → HookEnd × State
  after_hook not_included marked s = remove_all marked (return_all not_included s)

  -- getEntries
  unfoldable pub get_entries : Bool → State → List MempoolEntry × State
  get_entries force s =
      if eqb (size s) 0
      then ([], s)
      else if force
      then get_all_pending s
      else get_next_pending config.manager s

  -- The bundle, or `none` if the hook throws.
  unfoldable pub hand_over :
      BundleBuilderResult Failure → HookEnd × State → Option BundleReadyToSend × State
  hand_over r (finished, s) = (
    some (record {
      bundle = r.bundle;
      storage_map = r.storage_map;
      eip7702_tuples = r.eip7702_tuples;
    }),
    s,
  )
  hand_over r (stopped, s) = (
    some (record {
      bundle = r.bundle;
      storage_map = r.storage_map;
      eip7702_tuples = r.eip7702_tuples;
    }),
    s,
  )
  hand_over r (raised, s) = (none, s)

  unfoldable pub build_from :
      BuilderConfig Failure → List MempoolEntry → State → Option BundleReadyToSend × State
  unfolding hand_over
  build_from builder [] s = (some no_bundle, s)
  build_from builder (entry ∷ entries) s =
      let r =
        build_bundle builder (get_known_senders s.standard_pool) s (entry ∷ entries) initial in
      hand_over r (after_hook r.not_included r.marked_to_remove s)

  unfoldable pub create_bundle :
      BuilderConfig Failure → Bool → State → Option BundleReadyToSend × State
  unfolding build_from
  create_bundle builder force s =
      let (entries, s') = get_entries force s in build_from builder entries s'
