-- ===== src/Reputation/Cron.antt =====
-- The hourly job of the reputation manager. `startHourlyCron` reads the entries once, when it is
-- called, and the job walks over that snapshot at every tick. The interval that `setInterval` made
-- is the snapshot that its callback holds.
use transeptor_bundler.Prelude.{
  ◌*◌, ◌/◌, String, ◌≡◌, refl, ◌∙◌, Bool, false, ◌&&◌, ◌==◌, eq_iff, List, [], ◌∷◌, Option, none,
  some, arith, eqb, includes, if◌then◌else◌,
}
use transeptor_bundler.Prelude.Dict.{get, put, remove, keys, get-put, get-remove}
use transeptor_bundler.Prelude.Text.{to_lower_case}
use transeptor_bundler.Types.{ReputationEntry, ReputationEntries, ok}
use transeptor_bundler.State.{State}
use transeptor_bundler.Reputation.{
  update_entries, update_entries_lem, entry_status, status_of, get_status,
}
use transeptor_bundler.Reputation.Updates.{entry_at}

abbrev pub Interval : Type 0
Interval = Option ReputationEntries

pub stop_hourly_cron : Interval → Interval
stop_hourly_cron i = none

pub start_hourly_cron : State → Interval
start_hourly_cron s = some s.reputation_entries

-- The entry that a tick writes: both counters come from `opsSeen`.
abbrev pub decayed : ReputationEntry → ReputationEntry
decayed e = record {
  address = e.address;
  ops_seen = e.ops_seen * 23 / 24;
  ops_included = e.ops_seen * 23 / 24;
  status = none;
}

abbrev pub is_zero : ReputationEntry → Bool
is_zero e = eqb e.ops_included 0 && eqb e.ops_seen 0

pub decay : String → ReputationEntry → ReputationEntries → ReputationEntries
decay addr e entries = if is_zero e then remove addr entries else put addr (decayed e) entries

-- One round for a key of the snapshot; a key that is not there does not occur.
decay_key : String → Option ReputationEntry → State → State
decay_key addr none s = s
decay_key addr (some e) s = update_entries (decay addr e) s

decay_keys : List String → ReputationEntries → State → State
decay_keys [] snapshot s = s
decay_keys (addr ∷ addrs) snapshot s =
    decay_keys addrs snapshot (decay_key addr (get addr snapshot) s)

pub hourly_tick : Interval → State → State
hourly_tick none s = s
hourly_tick (some snapshot) s = decay_keys (keys snapshot) snapshot s

-- What a tick leaves under an address, by the snapshot alone.
abbrev pub ticked : ReputationEntry → Option ReputationEntry
ticked e = if is_zero e then none else some (decayed e)

abbrev pub ticked_or : Option ReputationEntry → Option ReputationEntry → Option ReputationEntry
ticked_or none now = now
ticked_or (some e) now = ticked e

entry_at-decay_key :
    (addr k : String) (o : Option ReputationEntry) (s : State)
    → entry_at k (decay_key addr o s)
      ≡ (if addr == k then ticked_or o (entry_at k s) else entry_at k s)
unfolding decay_key decay
entry_at-decay_key addr k none s = ground arith
entry_at-decay_key addr k (some e) s = rw update_entries_lem (
    ground (
      arith,
      get-put addr k (decayed e) s.reputation_entries,
      get-remove addr k s.reputation_entries,
    ))

entry_at-decay_keys :
    (addrs : List String) (snapshot : ReputationEntries) (k : String) (s : State)
    → entry_at k (decay_keys addrs snapshot s)
      ≡ (if includes addrs k then ticked_or (get k snapshot) (entry_at k s) else entry_at k s)
unfolding decay_keys
entry_at-decay_keys [] snapshot k s = refl
entry_at-decay_keys (addr ∷ addrs) snapshot k s =
    rw (entry_at-decay_keys addrs snapshot k _, entry_at-decay_key addr k (get addr snapshot) s)
      (ground (arith, eq_iff addr k))

includes-keys :
    (snapshot : ReputationEntries) (k : String) (now : Option ReputationEntry)
    → (if includes (keys snapshot) k then ticked_or (get k snapshot) now else now)
      ≡ ticked_or (get k snapshot) now
unfolding get
includes-keys [] k now = refl
includes-keys ((j, e) ∷ snapshot) k now = ground (arith, includes-keys snapshot k now)

-- A tick decides every entry from the snapshot that was taken when the cron started, whatever the
-- counters are now: an address of the snapshot gets its entry of the snapshot, decayed, or none if
-- that entry was zero, and an address that is not in the snapshot keeps what it has.
pub entry_at-hourly_tick :
    (snapshot : ReputationEntries) (k : String) (s : State)
    → entry_at k (hourly_tick (some snapshot) s) ≡ ticked_or (get k snapshot) (entry_at k s)
unfolding hourly_tick
entry_at-hourly_tick snapshot k s =
    entry_at-decay_keys (keys snapshot) snapshot k s ∙ includes-keys snapshot k (entry_at k s)

ticked_or_twice : (o now : Option ReputationEntry) → ticked_or o (ticked_or o now) ≡ ticked_or o now
ticked_or_twice none now = refl
ticked_or_twice (some e) now = refl

-- There is no decay over time: every tick after the first leaves all entries as the first left them,
-- if nothing else happens in between.
pub hourly_tick_twice :
    (interval : Interval) (k : String) (s : State)
    → entry_at k (hourly_tick interval (hourly_tick interval s))
      ≡ entry_at k (hourly_tick interval s)
hourly_tick_twice none k s = unfold hourly_tick in refl
hourly_tick_twice (some snapshot) k s =
    rw
      (
        entry_at-hourly_tick snapshot k (hourly_tick (some snapshot) s),
        entry_at-hourly_tick snapshot k s,
      )
      (ticked_or_twice (get k snapshot) (entry_at k s))

-- The lists are not touched.
abbrev SameLists : State → State → Type 0
SameLists t s = (t.white_list ≡ s.white_list) × (t.black_list ≡ s.black_list)

decay_key-SameLists :
    (addr : String) (o : Option ReputationEntry) (s : State) → SameLists (decay_key addr o s) s
unfolding decay_key
decay_key-SameLists addr none s = (refl, refl)
decay_key-SameLists addr (some e) s = rw update_entries_lem (refl, refl)

decay_keys-SameLists :
    (addrs : List String) (snapshot : ReputationEntries) (s : State)
    → SameLists (decay_keys addrs snapshot s) s
unfolding decay_keys
decay_keys-SameLists [] snapshot s = (refl, refl)
decay_keys-SameLists (addr ∷ addrs) snapshot s =
    let (w, b) = decay_keys-SameLists addrs snapshot (decay_key addr (get addr snapshot) s) in
    let (w', b') = decay_key-SameLists addr (get addr snapshot) s in (w ∙ w', b ∙ b')

hourly_tick-SameLists :
    (snapshot : ReputationEntries) (s : State) → SameLists (hourly_tick (some snapshot) s) s
unfolding hourly_tick
hourly_tick-SameLists snapshot s = decay_keys-SameLists (keys snapshot) snapshot s

status_of-ticked : (e : ReputationEntry) → status_of (ticked e) ≡ ok
unfolding entry_status
status_of-ticked e = ground arith

-- A tick lifts every ban and every throttling that comes from the counters: an address that the
-- snapshot holds, and that is not on the blacklist, has the status OK after it.
pub get_status-hourly_tick :
    (a : String) (snapshot : ReputationEntries) (e : ReputationEntry) (s : State)
    → get (to_lower_case a) snapshot ≡ some e
    → includes s.black_list (to_lower_case a) ≡ false
    → get_status (some a) (hourly_tick (some snapshot) s) ≡ ok
unfolding get_status
get_status-hourly_tick a snapshot e s held free = ground (
  arith,
  hourly_tick-SameLists snapshot s,
  entry_at-hourly_tick snapshot (to_lower_case a) s,
  status_of-ticked e,
)
