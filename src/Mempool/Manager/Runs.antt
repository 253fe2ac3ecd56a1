-- ===== src/Mempool/Manager/Runs.antt =====
-- Any sequence of the pool's operations, from a pool that is empty.
use transeptor_bundler.Prelude.{String, List, [], ◌∷◌}
use transeptor_bundler.Types.{EntryStatus}
use transeptor_bundler.State.{State}
use transeptor_bundler.Mempool.Slots.{IsSound}
use transeptor_bundler.Mempool.Manager.{
  ManagerConfig, RelayUserOpParam, UserOpOrHash, add_user_op, remove_user_op,
  remove_user_ops_for_banned_addr, get_next_pending, get_all_pending, update_entry_status,
  clear_state,
}
use transeptor_bundler.Mempool.Manager.Adding.{add_user_op-IsSound}
use transeptor_bundler.Mempool.Manager.Pending.{get_next_pending-IsSound, get_all_pending-IsSound}
use transeptor_bundler.Mempool.Manager.Removing.{remove_user_op-IsSound}
use transeptor_bundler.Mempool.Manager.Banning.{remove_user_ops_for_banned_addr-IsSound}
use transeptor_bundler.Mempool.Manager.Marking.{update_entry_status-IsSound, clear_state-IsSound}

-- The operations of the mempool manager that change the store.
pub data Call : Type 0 where
  add : RelayUserOpParam → Call
  remove : UserOpOrHash → Call
  ban : String → Call
  next_pending : Call
  all_pending : Call
  set_status : UserOpOrHash → EntryStatus → Call
  clear : Call

pub step : ManagerConfig → Call → State → State
step config (add p) s = (add_user_op config p s).1
step config (remove which) s = (remove_user_op which s).1
step config (ban addr) s = remove_user_ops_for_banned_addr addr s
step config next_pending s = (get_next_pending config s).1
step config all_pending s = (get_all_pending s).1
step config (set_status which status) s = update_entry_status which status s
step config clear s = clear_state s

pub run : ManagerConfig → List Call → State → State
unfolding step
run config [] s = s
run config (c ∷ cs) s = run config cs (step config c s)

step-IsSound :
    (config : ManagerConfig) (c : Call) (s : State)
    → IsSound s.standard_pool
    → IsSound (step config c s).standard_pool
unfolding step
step-IsSound config (add p) s v = add_user_op-IsSound config p s v
step-IsSound config (remove which) s v = remove_user_op-IsSound which s v
step-IsSound config (ban addr) s v = remove_user_ops_for_banned_addr-IsSound addr s v
step-IsSound config next_pending s v = get_next_pending-IsSound config s v
step-IsSound config all_pending s v = get_all_pending-IsSound s v
step-IsSound config (set_status which status) s v = update_entry_status-IsSound which status s v
step-IsSound config clear s v = clear_state-IsSound s

-- Whatever sequence of the manager's operations runs, a sound pool stays sound: every entry stands
-- under its hash, no hash stands twice, and no two entries share a sender (in lower case) and a nonce.
pub run-IsSound :
    (config : ManagerConfig) (cs : List Call) (s : State)
    → IsSound s.standard_pool
    → IsSound (run config cs s).standard_pool
unfolding run
run-IsSound config [] s v = v
run-IsSound config (c ∷ cs) s v =
    run-IsSound config cs (step config c s) (step-IsSound config c s v)
