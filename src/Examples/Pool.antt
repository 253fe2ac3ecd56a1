-- ===== src/Examples/Pool.antt =====
-- Tests of the pool's checks.
use transeptor_bundler.Prelude.{◌≡◌, ◌≤◌, ◌*◌, ◌↔◌, refl, true, false, [], some, none, arith}
use transeptor_bundler.Prelude.Dict.{put}
use transeptor_bundler.Prelude.Double.{at_least_times_1_1, times_1_1, round}
use transeptor_bundler.Prelude.Text.{to_lower_case}
use transeptor_bundler.Types.{MempoolEntry}
use transeptor_bundler.Outcome.{returned, right}
use transeptor_bundler.Mempool.{
  MempoolEntryMetadata, check_replace_user_op, check_multiple_roles_violation, get_known_entities,
  get_known_senders, senders_of, entities_of,
}
use transeptor_bundler.Mempool.Roles.{
  RolesApart, is_entity, check_multiple_roles_violation-RolesApart,
}
use transeptor_bundler.Mempool.Fees.{check_replace_user_op_sound, check_replace_user_op_complete}
use transeptor_bundler.Mempool.Admission.{
  check_reputation, check_reputation_iff, Admissible, AdmissibleOptional,
  max_mempool_userops_per_sender,
}
use transeptor_bundler.Examples.{op, entry_of, staked, stake_config, metadata, two_entries}

check_reputation_iff_example :
    (check_reputation stake_config two_entries.mempool_entry_count two_entries metadata
      ≡ returned tt)
    ↔ (Admissible stake_config two_entries.mempool_entry_count two_entries
          (staked "0xA1")
          max_mempool_userops_per_sender
        × AdmissibleOptional stake_config two_entries.mempool_entry_count two_entries
            (some (staked "0xB2"))
        × AdmissibleOptional stake_config two_entries.mempool_entry_count two_entries none
        × AdmissibleOptional stake_config two_entries.mempool_entry_count two_entries none)
check_reputation_iff_example =
    check_reputation_iff stake_config two_entries.mempool_entry_count two_entries metadata

none_known : RolesApart []
unfolding get_known_senders senders_of
none_known a sender entity = cc

not_own : is_entity (to_lower_case op.sender) op ≡ false
unfolding to_lower_case
not_own = refl

passed :
    check_multiple_roles_violation
      (entry_of "h1" op, metadata)
      (get_known_entities [])
      (get_known_senders [])
    ≡ right (entry_of "h1" op, metadata)
unfolding check_multiple_roles_violation get_known_entities get_known_senders senders_of entities_of
    to_lower_case
passed = refl

check_multiple_roles_violation-RolesApart_example : RolesApart (put "h1" (entry_of "h1" op) [])
check_multiple_roles_violation-RolesApart_example =
    check_multiple_roles_violation-RolesApart (entry_of "h1" op) metadata [] none_known not_own
      passed

abbrev raised : MempoolEntry
raised = entry_of "h3" (record op { max_fee_per_gas = 111; max_priority_fee_per_gas = 12 })

abbrev replacing : MempoolEntryMetadata
replacing = record metadata { old_entry = some (entry_of "h1" op) }

replaces : check_replace_user_op (raised, replacing) ≡ right (raised, replacing)
replaces =
    check_replace_user_op_complete raised (entry_of "h1" op) replacing refl
      (record { priority = omega arith; total = omega arith }) (omega arith) (omega arith)

check_replace_user_op_sound_example : (11 * 10 ≤ 10 * 12) × (11 * 100 ≤ 10 * 111)
check_replace_user_op_sound_example =
    check_replace_user_op_sound raised (entry_of "h1" op) replacing refl
      (record { priority = omega arith; total = omega arith }) replaces

eleven_tenths : at_least_times_1_1 11 10 ≡ true
unfolding at_least_times_1_1 times_1_1 round
eleven_tenths = refl

-- The product with 1.1 is rounded up here, so the exact bound is not enough.
not_quite : at_least_times_1_1 121 110 ≡ false
unfolding at_least_times_1_1 times_1_1 round
not_quite = refl
