-- ===== src/Examples/Reputations.antt =====
-- Tests of the reputation manager.
use transeptor_bundler.Prelude.{◌≡◌, ◌≢◌, refl, false, some, includes}
use transeptor_bundler.Prelude.Dict.{get}
use transeptor_bundler.Prelude.Text.{to_lower_case}
use transeptor_bundler.Types.{banned}
use transeptor_bundler.Reputation.{get_status, crashed_handle_ops}
use transeptor_bundler.Reputation.Status.{get_status-crashed_handle_ops}
use transeptor_bundler.Reputation.Updates.{entry_at}
use transeptor_bundler.Reputation.Cron.{hourly_tick, entry_at-hourly_tick}
use transeptor_bundler.Examples.{one_reputation, seen_often}

get_status-crashed_handle_ops_example :
    get_status (some "0xA1") (crashed_handle_ops (some "0xa1") one_reputation) ≡ banned
unfolding to_lower_case
get_status-crashed_handle_ops_example = get_status-crashed_handle_ops "0xa1" "0xA1" one_reputation

mixed : to_lower_case "0xA1" ≢ "0xA1"
unfolding to_lower_case
mixed h = cc

known : entry_at (to_lower_case "0xA1") one_reputation ≡ some seen_often
unfolding get to_lower_case
known = refl

entry_at-hourly_tick_example :
    entry_at "0xa1" (hourly_tick (some one_reputation.reputation_entries) one_reputation)
    ≡ some (record seen_often { ops_seen = 46; ops_included = 46 })
unfolding get
entry_at-hourly_tick_example =
    entry_at-hourly_tick one_reputation.reputation_entries "0xa1" one_reputation

unlisted : includes one_reputation.black_list (to_lower_case "0xA1") ≡ false
unlisted = refl
