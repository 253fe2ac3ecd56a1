-- ===== src/Bundle/Creating/Returning.antt =====
-- `afterHook` of the builder: what becomes of the entries that are not in the bundle.
use mathlib.Core.Option
use transeptor_bundler.Prelude.{
  ℕ, String, ◌≡◌, refl, sym, ap, ◌∙◌, subst, Bool, true, false, ◌==◌, List, [], ◌∷◌, map, includes,
  Option, none, some, arith, if◌then◌else◌,
}
use transeptor_bundler.Prelude.Dict.{get}
use transeptor_bundler.Types.{UserOperation, MempoolEntry, pending}
use transeptor_bundler.State.{State}
use transeptor_bundler.Reputation.{increment, decrement}
use transeptor_bundler.Reputation.Updates.{pool-update_seen_status}
use transeptor_bundler.Mempool.Slots.{IsSound}
use transeptor_bundler.Mempool.Manager.{by_hash, update_entry_status, find_by_hash, set_status}
use transeptor_bundler.Mempool.Manager.Removing.{remove_by_hash, remove_user_op-IsSound}
use transeptor_bundler.Mempool.Manager.Marking.{set_status_by_hash, update_entry_status-IsSound}
use transeptor_bundler.Bundle.Building.{
  RemoveReason, failed_2nd_validation, banned, RemoveUserOpDetails,
}
use transeptor_bundler.Bundle.Creating.{
  HookConfig, return_all, blame, HookEnd, finished, stopped, raised, remove_marked_op, on_failure,
  remove_one, go_on, remove_all, after_hook,
}

set_pending_twice :
    (o : Option MempoolEntry)
    → Option.map (set_status pending) (Option.map (set_status pending) o)
      ≡ Option.map (set_status pending) o
set_pending_twice none = refl
set_pending_twice (some e) = refl

pub return_all-IsSound :
    (hs : List String) (s : State)
    → IsSound s.standard_pool
    → IsSound (return_all hs s).standard_pool
unfolding return_all
return_all-IsSound [] s v = v
return_all-IsSound (h ∷ hs) s v =
    return_all-IsSound hs _ (update_entry_status-IsSound (by_hash h) pending s v)

find_by_hash-return_all :
    (hs : List String) (k : String) (s : State)
    → IsSound s.standard_pool
    → find_by_hash k (return_all hs s) ≡ (
        if includes hs k
        then Option.map (set_status pending) (find_by_hash k s)
        else find_by_hash k s)
unfolding return_all
find_by_hash-return_all [] k s v = refl
find_by_hash-return_all (h ∷ hs) k s v =
    find_by_hash-return_all hs k (update_entry_status (by_hash h) pending s)
      (update_entry_status-IsSound (by_hash h) pending s v)
    ∙ rw (set_status_by_hash pending h k s v) (ground (arith, set_pending_twice (find_by_hash k s)))

pub pool-blame :
    (addr : Option String) (op : UserOperation) (s : State)
    → (blame addr op s).standard_pool ≡ s.standard_pool
unfolding blame
pool-blame addr op s =
    (pool-update_seen_status addr increment _).0
    ∙ (pool-update_seen_status op.factory decrement _).0
    ∙ (pool-update_seen_status op.paymaster decrement _).0
    ∙ (pool-update_seen_status (some op.sender) decrement s).0

abbrev pub marked_hashes : {Failure : Type 0} → List (RemoveUserOpDetails Failure) → List String
marked_hashes ds = map (λ d. d.user_op_hash) ds

module _ {Failure : Type 0} (config : HookConfig Failure) where
  -- One round takes its operation out, unless it throws.
  abbrev TakesOut : String → State → HookEnd × State → Type 0
  TakesOut hash s r =
      r.0 ≡ finished
      → IsSound s.standard_pool
      → IsSound r.1.standard_pool
        × ((k : String) → find_by_hash k r.1 ≡ (if hash == k then none else find_by_hash k s))

  takes_out :
      (hash : String) (s t : State)
      → t.standard_pool ≡ s.standard_pool
      → TakesOut hash s (finished, remove_marked_op config hash t)
  unfolding remove_marked_op find_by_hash
  takes_out hash s t same e v =
      let v' = subst IsSound (sym same) v in
      (
        remove_user_op-IsSound (by_hash hash) t v',
        (λ k. remove_by_hash hash k t v' ∙ ap (λ p. if hash == k then none else get k p) same),
      )

  not_finished :
      (b : Bool) (hash : String) (s t : State)
      → TakesOut hash s (if b then (raised, s) else (stopped, t))
  not_finished true hash s t e v = cc
  not_finished false hash s t e v = cc

  on_failure-TakesOut :
      (o : Option (ℕ × String)) (failure : Failure) (d : RemoveUserOpDetails Failure) (s : State)
      → TakesOut d.user_op_hash s (on_failure config o failure d s)
  unfolding on_failure
  on_failure-TakesOut none failure d s = not_finished (config.is_fatal failure) d.user_op_hash s _
  on_failure-TakesOut (some (index, reason)) failure d s =
      takes_out d.user_op_hash s _ (pool-blame _ d.user_op s)

  remove_one-TakesOut :
      (reason : RemoveReason) (err : Option Failure) (d : RemoveUserOpDetails Failure) (s : State)
      → TakesOut d.user_op_hash s (remove_one config reason err d s)
  unfolding remove_one
  remove_one-TakesOut failed_2nd_validation (some failure) d s =
      on_failure-TakesOut (config.parse_failed_op failure) failure d s
  remove_one-TakesOut failed_2nd_validation none d s = takes_out d.user_op_hash s s refl
  remove_one-TakesOut banned err d s = takes_out d.user_op_hash s s refl

  abbrev TakesOutAll : List String → State → HookEnd × State → Type 0
  TakesOutAll hs s r =
      r.0 ≡ finished
      → IsSound s.standard_pool
      → (k : String) → find_by_hash k r.1 ≡ (if includes hs k then none else find_by_hash k s)

  go_on-TakesOutAll :
      (hash : String) (hs : List String) (s : State) (r : HookEnd × State)
      (rest : State → HookEnd × State)
      → TakesOut hash s r
      → ((t : State) → TakesOutAll hs t (rest t))
      → TakesOutAll (hash ∷ hs) s (go_on config r rest)
  unfolding go_on
  go_on-TakesOutAll hash hs s (finished, t) rest first others e v k =
      let (v', here) = first refl v in others t e v' k ∙ rw (here k) (ground arith)
  go_on-TakesOutAll hash hs s (stopped, t) rest first others e v k = cc
  go_on-TakesOutAll hash hs s (raised, t) rest first others e v k = cc

  remove_all-TakesOutAll :
      (ds : List (RemoveUserOpDetails Failure)) (s : State)
      → TakesOutAll (marked_hashes ds) s (remove_all config ds s)
  unfolding remove_all
  remove_all-TakesOutAll [] s = λ e v k. refl
  remove_all-TakesOutAll (d ∷ ds) s =
      go_on-TakesOutAll d.user_op_hash (marked_hashes ds) s (remove_one config d.reason d.err d s)
        (remove_all config ds) (remove_one-TakesOut d.reason d.err d s) (remove_all-TakesOutAll ds)

  -- If the hook of the builder comes to its end, it has taken every operation that is marked for removal
  -- out of a sound pool, has put every other one that is not in the bundle back to 'pending', and has
  -- left all further entries as they were.
  pub find_by_hash-after_hook :
      (not_included : List String) (marked : List (RemoveUserOpDetails Failure)) (s : State)
      (k : String)
      → IsSound s.standard_pool
      → (after_hook config not_included marked s).0 ≡ finished
      → find_by_hash k (after_hook config not_included marked s).1 ≡ (
          if includes (marked_hashes marked) k
          then none
          else if includes not_included k
          then Option.map (set_status pending) (find_by_hash k s)
          else find_by_hash k s)
  unfolding after_hook
  find_by_hash-after_hook not_included marked s k v e =
      remove_all-TakesOutAll marked (return_all not_included s) e
        (return_all-IsSound not_included s v) k
      ∙ rw (find_by_hash-return_all not_included k s v)
