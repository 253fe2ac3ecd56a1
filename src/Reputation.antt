-- ===== src/Reputation.antt =====
-- reputation/reputation-manager.ts: how often the bundler saw and included each entity, and the
-- status and the limits that follow. The counters are natural numbers; the quotients of the source
-- are rounded down and are exact in a double as long as a counter stays below 2 ^ 45.
pub mod Checks
pub mod Cron
pub mod Updates
pub mod Status
use mathlib.Core.Option
use transeptor_bundler.Prelude.{
  ℕ, zero, suc, ◌+◌, ◌-◌, ◌*◌, ◌/◌, String, ◌≡◌, refl, Bool, true, false, ◌&&◌, ◌==◌, List, [], ◌∷◌,
  ◌++◌, map, Option, none, some, leb, eqb, min, includes, if◌then◌else◌,
}
use transeptor_bundler.Prelude.Dict.{Dict, get, put, remove, merge, values}
use transeptor_bundler.Prelude.Text.{to_lower_case}
use transeptor_bundler.Types.{
  ReputationStatus, ok, throttled, banned, ReputationEntry, ReputationEntries,
}
use transeptor_bundler.State.{
  State, StateKey, Partial, empty, pick, keys_of, assign, or_else, apply_update,
}

-- bundlerReputationParams
abbrev pub min_inclusion_denominator : ℕ
min_inclusion_denominator = 10

abbrev pub throttling_slack : ℕ
throttling_slack = 10

abbrev pub ban_slack : ℕ
ban_slack = 50

-- state.updateState(stateCapability, StateKey.ReputationEntries, …), and the same for the lists
pub update_entries : (ReputationEntries → ReputationEntries) → State → State
unfolding apply_update pick keys_of assign
update_entries f s =
    (apply_update (StateKey.reputation_entries ∷ [])
      (λ cur. record empty { reputation_entries = Option.map f cur.reputation_entries }) s).1

pub update_entries_lem :
    (f : ReputationEntries → ReputationEntries) (s : State)
    → update_entries f s ≡ record s { reputation_entries = f s.reputation_entries }
unfolding update_entries
update_entries_lem f s = refl

pub clear_state : State → State
unfolding update_entries
clear_state s = update_entries (λ _. []) s

unfoldable pub add_whitelist : List String → State → State
unfolding apply_update pick keys_of assign
add_whitelist [] s = s
add_whitelist (i ∷ items) s =
    (apply_update (StateKey.white_list ∷ [])
      (λ cur. record empty { white_list = Option.map (λ l. l ++ i ∷ items) cur.white_list }) s).1

pub add_blacklist : List String → State → State
unfolding apply_update pick keys_of assign
add_blacklist [] s = s
add_blacklist (i ∷ items) s =
    (apply_update (StateKey.black_list ∷ [])
      (λ cur. record empty { black_list = Option.map (λ l. l ++ i ∷ items) cur.black_list }) s).1

-- The ladder at the end of `getStatus`.
unfoldable pub entry_status : ReputationEntry → ReputationStatus
entry_status e =
    let min_expected_included = e.ops_seen / min_inclusion_denominator in
    if leb min_expected_included (e.ops_included + throttling_slack)
    then ok
    else if leb min_expected_included (e.ops_included + ban_slack)
    then throttled
    else banned

abbrev status_of : Option ReputationEntry → ReputationStatus
status_of none = ok
status_of (some e) = entry_status e

unfoldable pub get_status : Option String → State → ReputationStatus
get_status none s = ok
get_status (some a) s =
    let addr = to_lower_case a in
    if includes s.white_list addr
    then ok
    else if includes s.black_list addr
    then banned
    else status_of (get addr s.reputation_entries)

abbrev fresh : String → ReputationEntry
fresh addr = record { address = addr; ops_seen = 0; ops_included = 0; status = none }

unfoldable pub get_or_create : String → ReputationEntries → ReputationEntry
get_or_create a entries = let addr = to_lower_case a in or_else (get addr entries) (fresh addr)

pub data SeenAction : Type 0 where
  increment decrement : SeenAction

-- Math.max(0, n + 1) and Math.max(0, n - 1)
abbrev pub seen : SeenAction → ℕ → ℕ
seen increment n = n + 1
seen decrement n = n - 1

pub bump_seen : String → SeenAction → ReputationEntries → ReputationEntries
bump_seen addr action entries =
    let entry = get_or_create addr entries in
    put addr (record entry { ops_seen = seen action entry.ops_seen }) entries

pub update_seen_status : Option String → SeenAction → State → State
update_seen_status none action s = s
update_seen_status (some a) action s =
    if a == "" then s else update_entries (bump_seen (to_lower_case a) action) s

-- The reduce of `updateSeenStatusBatch`: every entry is read from the map before the batch.
seen_batch : List String → ReputationEntries → ReputationEntries → ReputationEntries
seen_batch [] entries acc = acc
seen_batch (a ∷ addrs) entries acc =
    let entry = get_or_create (to_lower_case a) entries in
    seen_batch addrs entries
      (put (to_lower_case a) (record entry { ops_seen = entry.ops_seen + 1 }) acc)

pub update_seen_status_batch : List String → State → State
update_seen_status_batch [] s = s
update_seen_status_batch (a ∷ addrs) s =
    update_entries (λ entries. merge entries (seen_batch (a ∷ addrs) entries [])) s

pub bump_included : String → ReputationEntries → ReputationEntries
bump_included addr entries =
    let entry = get_or_create addr entries in
    put addr (record entry { ops_included = entry.ops_included + 1 }) entries

pub update_included_status : String → State → State
update_included_status a s = update_entries (bump_included (to_lower_case a)) s

abbrev crash_seen : Option ReputationEntry → ℕ
crash_seen none = 10000
crash_seen (some e) = e.ops_seen + 10000

pub crash : String → ReputationEntries → ReputationEntries
crash addr entries =
    put addr
      (record {
        address = addr;
        ops_seen = crash_seen (get addr entries);
        ops_included = 0;
        status = none;
      })
      entries

pub crashed_handle_ops : Option String → State → State
crashed_handle_ops none s = s
crashed_handle_ops (some a) s = update_entries (crash (to_lower_case a)) s

with_status : State → ReputationEntry → ReputationEntry
with_status s e = record e { status = some (get_status (some e.address) s) }

-- `dump` writes the status into the entries that the store holds, and returns them.
pub dump : State → List ReputationEntry × State
dump s =
    let entries = map (λ b. (b.0, with_status s b.1)) s.reputation_entries in
    (values entries, record s { reputation_entries = entries })

reputations_map : List ReputationEntry → ReputationEntries → ReputationEntries
reputations_map [] acc = acc
reputations_map (rep ∷ reps) acc =
    let addr = to_lower_case rep.address in
    reputations_map reps (put addr (record rep { address = addr; status = none }) acc)

pub set_reputation : List ReputationEntry → State → List ReputationEntry × State
set_reputation reps s = dump (update_entries (λ entries. merge entries (reputations_map reps [])) s)

abbrev same_unstaked_entity_mempool_count : ℕ
same_unstaked_entity_mempool_count = 10

abbrev inclusion_rate_factor : ℕ
inclusion_rate_factor = 10

-- Math.floor(inclusionRate * INCLUSION_RATE_FACTOR), over the exact quotient
abbrev inclusion_bonus : ReputationEntry → ℕ
inclusion_bonus e =
    if eqb e.ops_seen 0 then 0 else e.ops_included * inclusion_rate_factor / e.ops_seen

abbrev quota : Option ReputationEntry → ℕ
quota none = same_unstaked_entity_mempool_count
quota (some e) = same_unstaked_entity_mempool_count + inclusion_bonus e + min e.ops_included 10000

unfoldable pub calculate_max_allowed_mempool_ops_unstaked : String → State → ℕ
calculate_max_allowed_mempool_ops_unstaked entity s =
    quota (get (to_lower_case entity) s.reputation_entries)
