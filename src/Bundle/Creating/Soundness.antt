-- ===== src/Bundle/Creating/Soundness.antt =====
-- `createBundle` and the pool.
use transeptor_bundler.Prelude.{
  ℕ, String, sym, subst, Bool, true, false, List, [], ◌∷◌, Option, none, some, eqb, if◌then◌else◌,
}
use transeptor_bundler.Types.{MempoolEntry}
use transeptor_bundler.State.{State}
use transeptor_bundler.Mempool.{get_known_senders}
use transeptor_bundler.Mempool.Slots.{IsSound, HasSound}
use transeptor_bundler.Mempool.Manager.{by_hash, size, get_next_pending, get_all_pending}
use transeptor_bundler.Mempool.Manager.Pending.{get_next_pending-IsSound, get_all_pending-IsSound}
use transeptor_bundler.Mempool.Manager.Removing.{remove_user_op-IsSound}
use transeptor_bundler.Bundle.Building.{
  RemoveReason, failed_2nd_validation, banned, RemoveUserOpDetails, BundleBuilderResult,
  BuilderConfig, initial, build_bundle,
}
use transeptor_bundler.Bundle.Creating.{
  HookConfig, HookEnd, finished, stopped, remove_marked_op, on_failure, remove_one, go_on,
  remove_all, after_hook, get_entries, hand_over, build_from, create_bundle,
}
use transeptor_bundler.Bundle.Creating.Returning.{return_all-IsSound, pool-blame}

abbrev EndsSound : HookEnd × State → Type 0
EndsSound r = HasSound r.1

module _ {Failure : Type 0} (config : HookConfig Failure) where
  unless_fatal :
      (b : Bool) (s t : State)
      → HasSound s
      → HasSound t
      → EndsSound (if b then (HookEnd.raised, s) else (stopped, t))
  unless_fatal true s t v u = v
  unless_fatal false s t v u = u

  remove_marked_op-IsSound :
      (hash : String) (s : State) → HasSound s → HasSound (remove_marked_op config hash s)
  unfolding remove_marked_op
  remove_marked_op-IsSound hash s v = remove_user_op-IsSound (by_hash hash) s v

  on_failure-IsSound :
      (o : Option (ℕ × String)) (failure : Failure) (d : RemoveUserOpDetails Failure) (s : State)
      → HasSound s
      → HasSound (on_failure config o failure d s).1
  unfolding on_failure
  on_failure-IsSound none failure d s v =
      unless_fatal (config.is_fatal failure) s _ v (remove_marked_op-IsSound d.user_op_hash s v)
  on_failure-IsSound (some (index, reason)) failure d s v =
      remove_marked_op-IsSound d.user_op_hash _ (subst IsSound (sym (pool-blame _ d.user_op s)) v)

  remove_one-IsSound :
      (reason : RemoveReason) (err : Option Failure) (d : RemoveUserOpDetails Failure) (s : State)
      → HasSound s
      → HasSound (remove_one config reason err d s).1
  unfolding remove_one
  remove_one-IsSound failed_2nd_validation (some failure) d s v =
      on_failure-IsSound (config.parse_failed_op failure) failure d s v
  remove_one-IsSound failed_2nd_validation none d s v = remove_marked_op-IsSound d.user_op_hash s v
  remove_one-IsSound banned err d s v = remove_marked_op-IsSound d.user_op_hash s v

  go_on-IsSound :
      (r : HookEnd × State) (next : State → HookEnd × State)
      → HasSound r.1
      → ((t : State) → HasSound t → HasSound (next t).1)
      → HasSound (go_on config r next).1
  unfolding go_on
  go_on-IsSound (finished, s) next v k = k s v
  go_on-IsSound (stopped, s) next v k = v
  go_on-IsSound (HookEnd.raised, s) next v k = v

  remove_all-IsSound :
      (ds : List (RemoveUserOpDetails Failure)) (s : State)
      → HasSound s
      → HasSound (remove_all config ds s).1
  unfolding remove_all
  remove_all-IsSound [] s v = v
  remove_all-IsSound (d ∷ ds) s v =
      go_on-IsSound _ (remove_all config ds) (remove_one-IsSound d.reason d.err d s v)
        (remove_all-IsSound ds)

  get_entries-IsSound :
      (force : Bool) (s : State) → HasSound s → HasSound (get_entries config force s).1
  unfolding get_entries
  get_entries-IsSound force s v = choose (eqb (size s) 0) force
    where
      choose :
          (empty force : Bool)
          → HasSound
              (if empty
                then ([], s)
                else if force
                then get_all_pending s
                else get_next_pending config.manager s).1
      choose true force = v
      choose false true = get_all_pending-IsSound s v
      choose false false = get_next_pending-IsSound config.manager s v

  hand_over-IsSound :
      (r : BundleBuilderResult Failure) (h : HookEnd × State)
      → HasSound h.1
      → HasSound (hand_over config r h).1
  unfolding hand_over
  hand_over-IsSound r (finished, s) v = v
  hand_over-IsSound r (stopped, s) v = v
  hand_over-IsSound r (HookEnd.raised, s) v = v

  build_from-IsSound :
      (builder : BuilderConfig Failure) (entries : List MempoolEntry) (s : State)
      → HasSound s
      → HasSound (build_from config builder entries s).1
  unfolding build_from after_hook
  build_from-IsSound builder [] s v = v
  build_from-IsSound builder (entry ∷ entries) s v =
      let r =
        build_bundle builder (get_known_senders s.standard_pool) s (entry ∷ entries) initial in
      hand_over-IsSound r _ (remove_all-IsSound r.marked_to_remove _ (return_all-IsSound _ s v))

  pub create_bundle-IsSound :
      (builder : BuilderConfig Failure) (force : Bool) (s : State)
      → HasSound s
      → HasSound (create_bundle config builder force s).1
  unfolding create_bundle
  create_bundle-IsSound builder force s v =
      build_from-IsSound builder _ _ (get_entries-IsSound force s v)
