-- ===== src/Examples/Calls.antt =====
-- Tests of the mempool manager's operations.
use transeptor_bundler.Prelude.{
  ◌≡◌, ◌≢◌, refl, sym, ◌∙◌, true, false, [], ◌∷◌, map, take, none, some, includes,
}
use transeptor_bundler.Types.{bundling, failed}
use transeptor_bundler.Outcome.{returned, thrown, right}
use transeptor_bundler.State.{init}
use transeptor_bundler.Mempool.Slots.{IsSound}
use transeptor_bundler.Mempool.Entries.{hashes}
use transeptor_bundler.Mempool.Manager
use transeptor_bundler.Mempool.Manager.{
  add_user_op, conclude, remove_user_op, find_by_hash, new_entry, by_hash, by_op, get_next_pending,
  take_pending, lookup_entry, remove_user_ops_for_banned_addr, update_entry_status,
}
use transeptor_bundler.Mempool.Manager.Runs.{
  run, run-IsSound, add, remove, next_pending, set_status,
}
use transeptor_bundler.Mempool.Manager.Adding.{find_by_hash-add_user_op}
use transeptor_bundler.Mempool.Manager.Pending.{
  get_next_pending_twice, get_next_pending_lem, pending_entries,
}
use transeptor_bundler.Mempool.Manager.Removing.{
  find_by_hash-remove_user_op-add_user_op, count-remove_user_op,
}
use transeptor_bundler.Mempool.Manager.Banning.{
  find_by_hash-remove_user_ops_for_banned_addr, unless_mentions,
}
use transeptor_bundler.Errors.{is_banned, account}
use transeptor_bundler.Prelude.Text.{to_lower_case}
use transeptor_bundler.Prelude.Int.{◌-ℤ◌}
use transeptor_bundler.Prelude.Dict.{get}
use transeptor_bundler.UserOps.{get_user_op_max_cost}
use transeptor_bundler.Deposit.{check_paymaster_deposit, check_deposit, charge_pending}
use transeptor_bundler.Reputation.{get_status, calculate_max_allowed_mempool_ops_unstaked}
use transeptor_bundler.Reputation.Checks.{check_banned, check_throttled, check_stake}
use transeptor_bundler.Mempool.{
  find_by_sender_nonce, find_slot, get_known_entities, get_known_senders, senders_of, entities_of,
  check_multiple_roles_violation,
}
use transeptor_bundler.Mempool.Admission.{
  replace_or_add_user_op_checks, checks_for, check_reputation, check_reputation_status,
}
use transeptor_bundler.Examples.{
  op, entry_of, config, param, other_param, two_entries, two_entries-IsSound, refusing,
}

init-IsSound : IsSound []
init-IsSound = record { keyed = tt; distinct = tt; one_per_slot = tt }

run-IsSound_example :
    IsSound
      (run config
        (add param
          ∷ add other_param
          ∷ next_pending
          ∷ set_status (by_hash "h1") failed
          ∷ remove (by_op op)
          ∷ [])
        init).standard_pool
run-IsSound_example =
    run-IsSound config
      (add param
        ∷ add other_param
        ∷ next_pending
        ∷ set_status (by_hash "h1") failed
        ∷ remove (by_op op)
        ∷ [])
      init init-IsSound

-- The operation is accepted, and refused if its sender is banned.
outcomes :
    ((add_user_op config param init).0 ≡ returned (right "h1"))
    × ((add_user_op config param refusing).0 ≡ thrown (is_banned account "0xA1"))
unfolding add_user_op conclude replace_or_add_user_op_checks checks_for check_reputation
    check_reputation_status check_banned check_throttled check_stake find_by_sender_nonce find_slot
    get_known_entities get_known_senders senders_of entities_of check_multiple_roles_violation
    get_status calculate_max_allowed_mempool_ops_unstaked check_paymaster_deposit check_deposit
    charge_pending get_user_op_max_cost get to_lower_case ◌-ℤ◌
outcomes = (refl, refl)

find_by_hash-add_user_op_example :
    find_by_hash "h1" (add_user_op config param init).1 ≡ some (new_entry param)
find_by_hash-add_user_op_example = find_by_hash-add_user_op config param init "h1" outcomes.0

no_slot : find_by_sender_nonce "0xA1" 7 [] ≡ none
unfolding find_by_sender_nonce find_slot
no_slot = refl

no_entry : find_by_hash "h1" init ≡ none
unfolding find_by_hash get
no_entry = refl

find_by_hash-remove_user_op-add_user_op_example :
    find_by_hash "h1" (remove_user_op (by_hash "h1") (add_user_op config param init).1).1
    ≡ find_by_hash "h1" init
find_by_hash-remove_user_op-add_user_op_example =
    find_by_hash-remove_user_op-add_user_op config param init "h1" outcomes.0 no_slot no_entry

refused : (add_user_op config param refusing).0 ≢ returned (right "h1")
refused h = let thrown' = sym outcomes.1 ∙ h in cc

handed_out : includes (hashes (get_next_pending config two_entries).0) "h1" ≡ true
unfolding get_next_pending take_pending
handed_out = refl

get_next_pending_twice_example :
    includes (hashes (get_next_pending config (get_next_pending config two_entries).1).0) "h1"
    ≡ false
get_next_pending_twice_example =
    get_next_pending_twice config two_entries "h1" two_entries-IsSound handed_out

get_next_pending_lem_example :
    (get_next_pending config two_entries).0
    ≡ map (Manager.set_status bundling) (take 1 (pending_entries two_entries))
get_next_pending_lem_example = get_next_pending_lem config two_entries

looked_up : lookup_entry (by_op op) two_entries.standard_pool ≡ some (entry_of "h1" op)
unfolding lookup_entry find_by_sender_nonce find_slot to_lower_case
looked_up = refl

-- The sender 0xA1 is counted as 0xa1, and that count stays.
count-remove_user_op_example :
    get "0xa1" (remove_user_op (by_op op) two_entries).1.mempool_entry_count
    ≡ get "0xa1" two_entries.mempool_entry_count
count-remove_user_op_example =
    count-remove_user_op (by_op op) (entry_of "h1" op) two_entries looked_up "0xa1"

find_by_hash-remove_user_ops_for_banned_addr_example :
    find_by_hash "h1" (remove_user_ops_for_banned_addr "0xB2" two_entries)
    ≡ unless_mentions "0xB2" (find_by_hash "h1" two_entries)
find_by_hash-remove_user_ops_for_banned_addr_example =
    find_by_hash-remove_user_ops_for_banned_addr "0xB2" two_entries "h1" two_entries-IsSound
