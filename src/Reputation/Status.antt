-- ===== src/Reputation/Status.antt =====
-- `getStatus`: how the counters and the lists decide the status of an address.
use native.Mathlib.Nat.{le_trans, le_refl, le_of_eq}
use transeptor_bundler.Prelude.{
  ℕ, ◌≤◌, String, ◌≡◌, ◌≢◌, refl, sym, ap, ◌∙◌, ◌==◌, eq_iff, List, [], ◌∷◌, ◌++◌, Option, none,
  some, arith, inl, inr, Bool-cases, Option-cases, includes, if◌then◌else◌,
}
use transeptor_bundler.Prelude.Dict.{get, put, get-put}
use transeptor_bundler.Prelude.Text.{to_lower_case, to_lower_case_idem}
use transeptor_bundler.Types.{
  ReputationStatus, ok, throttled, banned, ReputationEntry, ReputationEntries,
}
use transeptor_bundler.State.{State}
use transeptor_bundler.Reputation.{
  entry_status, status_of, get_status, update_entries, update_entries_lem, get_or_create, fresh,
  bump_seen, bump_included, crash, crash_seen, increment, decrement, update_seen_status,
  update_included_status, crashed_handle_ops, add_whitelist,
}

-- OK, THROTTLED, BANNED in the order of the enum
abbrev pub rank : ReputationStatus → ℕ
rank ok = 0
rank throttled = 1
rank banned = 2

entry_status_mono :
    (d e : ReputationEntry)
    → d.ops_seen ≤ e.ops_seen
    → e.ops_included ≤ d.ops_included
    → rank (entry_status d) ≤ rank (entry_status e)
unfolding entry_status
entry_status_mono d e h k = ground arith

entry_status-fresh : (a : String) → entry_status (fresh a) ≡ ok
unfolding entry_status
entry_status-fresh a = refl

-- The status after an update of the entries: only the entry of the address counts.
get_status-update_entries :
    (a : String) (f : ReputationEntries → ReputationEntries) (s : State)
    → get_status (some a) (update_entries f s) ≡ (
        if includes s.white_list (to_lower_case a)
        then ok
        else if includes s.black_list (to_lower_case a)
        then banned
        else status_of (get (to_lower_case a) (f s.reputation_entries)))
unfolding get_status
get_status-update_entries a f s = rw update_entries_lem

entry_status-crashed :
    (a : String) (o : Option ReputationEntry)
    → entry_status
        (record { address = a; ops_seen = crash_seen o; ops_included = 0; status = none })
      ≡ banned
unfolding entry_status
entry_status-crashed a none = refl
entry_status-crashed a (some e) = ground arith

-- Whatever an entity did before, once it crashed handleOps it is banned, unless it is whitelisted;
-- the status of every other address (compared in lower case) stays as it was.
pub get_status-crashed_handle_ops :
    (a b : String) (s : State)
    → get_status (some b) (crashed_handle_ops (some a) s) ≡ (
        if to_lower_case a == to_lower_case b
        then if includes s.white_list (to_lower_case b) then ok else banned
        else get_status (some b) s)
unfolding crashed_handle_ops crash get_status
get_status-crashed_handle_ops a b s =
    rw (get_status-update_entries b _ s, get-put)
      (ground (
        arith,
        entry_status-crashed (to_lower_case a) (get (to_lower_case a) s.reputation_entries),
      ))

-- The entry that `getOrCreate` finds has the status of the address.
status_of-get_or_create :
    (addr : String) (entries : ReputationEntries)
    → entry_status (get_or_create addr entries) ≡ status_of (get (to_lower_case addr) entries)
unfolding get_or_create
status_of-get_or_create addr entries = elim (Option-cases (get (to_lower_case addr) entries)) [
  | inl e ↦ rw e (entry_status-fresh (to_lower_case addr))
  | inr (x, e) ↦ rw e
]

-- An entry that is put over the old one, with a status that is no worse or no better.
module _ (k j : String) (e : ReputationEntry) (entries : ReputationEntries) where
  put-le :
      rank (entry_status e) ≤ rank (status_of (get k entries))
      → rank (status_of (get j (put k e entries))) ≤ rank (status_of (get j entries))
  put-le h = rw get-put (ground (arith, eq_iff k j))

  put-ge :
      rank (status_of (get k entries)) ≤ rank (entry_status e)
      → rank (status_of (get j entries)) ≤ rank (status_of (get j (put k e entries)))
  put-ge h = rw get-put (ground (arith, eq_iff k j))

-- The entry of an address that is in lower case already.
status_of-lower :
    (a : String) (entries : ReputationEntries)
    → rank (entry_status (get_or_create (to_lower_case a) entries))
      ≡ rank (status_of (get (to_lower_case a) entries))
status_of-lower a entries =
    ap rank (status_of-get_or_create (to_lower_case a) entries) ∙ rw (to_lower_case_idem a)

module _ (b : String) (s : State) where
  -- A ladder with the same lists on both sides.
  get_status-le :
      (f : ReputationEntries → ReputationEntries)
      → rank (status_of (get (to_lower_case b) (f s.reputation_entries)))
        ≤ rank (status_of (get (to_lower_case b) s.reputation_entries))
      → rank (get_status (some b) (update_entries f s)) ≤ rank (get_status (some b) s)
  get_status-le f h = rw (get_status-update_entries b f s) (unfold get_status in ground arith)

  get_status-ge :
      (f : ReputationEntries → ReputationEntries)
      → rank (status_of (get (to_lower_case b) s.reputation_entries))
        ≤ rank (status_of (get (to_lower_case b) (f s.reputation_entries)))
      → rank (get_status (some b) s) ≤ rank (get_status (some b) (update_entries f s))
  get_status-ge f h = rw (get_status-update_entries b f s) (unfold get_status in ground arith)

abbrev entry_of : String → State → ReputationEntry
entry_of a s = get_or_create (to_lower_case a) s.reputation_entries

module _ (a b : String) (s : State) where
  seen_worsens :
      rank (get_status (some b) s)
      ≤ rank (get_status (some b) (update_entries (bump_seen (to_lower_case a) increment) s))
  unfolding bump_seen
  seen_worsens = get_status-ge b s (bump_seen (to_lower_case a) increment) (
      put-ge _ _ _ _ (
        le_trans (le_of_eq (sym (status_of-lower a s.reputation_entries)))
          (entry_status_mono (entry_of a s) _ (omega arith) (omega arith))))

  unseen_improves :
      rank (get_status (some b) (update_entries (bump_seen (to_lower_case a) decrement) s))
      ≤ rank (get_status (some b) s)
  unfolding bump_seen
  unseen_improves = get_status-le b s (bump_seen (to_lower_case a) decrement) (
      put-le _ _ _ _ (
        le_trans (entry_status_mono _ (entry_of a s) (omega arith) (omega arith))
          (le_of_eq (status_of-lower a s.reputation_entries))))

includes-mixed :
    (item a : String) (xs : List String)
    → to_lower_case item ≢ item
    → includes (xs ++ item ∷ []) (to_lower_case a) ≡ includes xs (to_lower_case a)
includes-mixed item a [] mixed = elim (Bool-cases (item == to_lower_case a)) [
  | inl hit ↦
      let e = (eq_iff item (to_lower_case a)).0 hit in
      absurd (mixed (ap to_lower_case e ∙ to_lower_case_idem a ∙ sym e))
  | inr miss ↦ rw miss
]
includes-mixed item a (x ∷ xs) mixed = ground (arith, includes-mixed item a xs mixed)

-- Being included in a bundle never worsens the status of any address.
pub get_status-update_included_status :
    (a b : String) (s : State)
    → rank (get_status (some b) (update_included_status a s)) ≤ rank (get_status (some b) s)
unfolding update_included_status bump_included
get_status-update_included_status a b s = get_status-le b s (bump_included (to_lower_case a)) (
    put-le _ _ _ _ (
      le_trans (entry_status_mono _ (entry_of a s) (omega arith) (omega arith))
        (le_of_eq (status_of-lower a s.reputation_entries))))

-- Being seen once more never improves the status of any address, and taking a sighting back never
-- worsens it.
pub get_status-update_seen_status :
    (a b : String) (s : State)
    → (rank (get_status (some b) s)
        ≤ rank (get_status (some b) (update_seen_status (some a) increment s)))
      × (rank (get_status (some b) (update_seen_status (some a) decrement s))
          ≤ rank (get_status (some b) s))
unfolding update_seen_status
get_status-update_seen_status a b s = elim (Bool-cases (a == "")) [
  | inl blank ↦ rw blank (le_refl _, le_refl _)
  | inr named ↦ rw named (seen_worsens a b s, unseen_improves a b s)
]

-- A whitelist entry with a capital letter has no effect: `addWhitelist` stores it as it is given, and
-- `getStatus` looks it up in lower case.
pub get_status-add_whitelist_mixed :
    (item : String) (addr : Option String) (s : State)
    → to_lower_case item ≢ item
    → get_status addr (add_whitelist (item ∷ []) s) ≡ get_status addr s
unfolding add_whitelist get_status
get_status-add_whitelist_mixed item none s mixed = refl
get_status-add_whitelist_mixed item (some a) s mixed = rw (includes-mixed item a s.white_list mixed)
