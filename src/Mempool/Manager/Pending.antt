-- ===== src/Mempool/Manager/Pending.antt =====
-- `getNextPending` and `getAllPending`: which entries are handed out for bundling, and that none is
-- handed out twice.
use mathlib.Core.Option
use transeptor_bundler.Prelude.{
  ℕ, zero, suc, ◌+◌, ◌-◌, String, ◌≡◌, refl, sym, ap, ◌∙◌, Bool, true, false, ◌&&◌, ◌==◌, eq_iff,
  List, [], ◌∷◌, map, filter, take, includes, ltb, Option, none, some, arith, inl, inr, Bool-cases,
  Option-cases, if◌then◌else◌,
}
use transeptor_bundler.Prelude.Dict.{get, values, get-put}
use transeptor_bundler.Types.{EntryStatus, bundling, MempoolEntry, StandardPool}
use transeptor_bundler.State.{State}
use transeptor_bundler.Mempool.Slots.{IsSound}
use transeptor_bundler.Mempool.Entries.{set_status-IsSound, hashes, holds_at, includes-filter}
use transeptor_bundler.Mempool.Manager.{
  ManagerConfig, is_pending, take_pending, set_status, mark_one, mark_bundling, hand_out,
  update_pool_only_lem, get_next_pending, get_all_pending, find_by_hash,
}

abbrev pub pending_entries : State → List MempoolEntry
pending_entries s = filter (λ e. is_pending e.status) (values s.standard_pool)

take-nil {ℓ} : {A : Type ℓ} (n : ℕ) → take {A = A} n [] ≡ []
take-nil zero = refl
take-nil (suc n) = refl

minus_suc : (a b : ℕ) → ltb b a ≡ true → (a - b) ≡ suc (a - (b + 1))
minus_suc a b h = ground arith

minus_zero : (a b : ℕ) → ltb b a ≡ false → (a - b) ≡ 0
minus_zero a b h = ground arith

-- A pass of the loop at an entry that is pending, with room left or not.
take_step {ℓ} :
    {A : Type ℓ} (size count : ℕ) (x : A) (xs : List A)
    → (if ltb count size then x ∷ take (size - (count + 1)) xs else take (size - count) xs)
      ≡ take (size - count) (x ∷ xs)
take_step size count x xs = elim (Bool-cases (ltb count size)) [
  | inl room ↦ rw (room, minus_suc size count room)
  | inr full ↦ rw (full, minus_zero size count full)
]

and_true : (b : Bool) → (b && true) ≡ b
and_true b = ground arith

and_false : (b : Bool) → (b && false) ≡ false
and_false b = ground arith

-- The loop with its counter takes the first pending entries.
take_pending_lem :
    (size count : ℕ) (es : List MempoolEntry)
    → take_pending size count es ≡ take (size - count) (filter (λ e. is_pending e.status) es)
unfolding take_pending
take_pending_lem size count [] = sym (take-nil (size - count))
take_pending_lem size count (e ∷ es) = elim (Bool-cases (is_pending e.status)) [
  | inl waits ↦
      rw
        (
          waits,
          take_pending_lem size (count + 1) es,
          take_pending_lem size count es,
          and_true (ltb count size),
        )
        (take_step size count e (filter (λ e'. is_pending e'.status) es))
  | inr other ↦ rw (other, take_pending_lem size count es, and_false (ltb count size))
]

get-mark_one :
    (h k : String) (pool : StandardPool)
    → get k (mark_one h (get h pool) pool)
      ≡ (if h == k then Option.map (set_status bundling) (get k pool) else get k pool)
unfolding mark_one
get-mark_one h k pool = elim (Option-cases (get h pool)) [
  | inl absent ↦ rw absent (ground (arith, eq_iff h k))
  | inr (e, there) ↦
      rw (there, get-put h k (set_status bundling e) pool) (ground (arith, eq_iff h k))
]

bundled_twice :
    (o : Option MempoolEntry)
    → Option.map (set_status bundling) (Option.map (set_status bundling) o)
      ≡ Option.map (set_status bundling) o
bundled_twice none = refl
bundled_twice (some e) = refl

get-mark_bundling :
    (hs : List String) (k : String) (pool : StandardPool)
    → get k (mark_bundling hs pool)
      ≡ (if includes hs k then Option.map (set_status bundling) (get k pool) else get k pool)
unfolding mark_bundling
get-mark_bundling [] k pool = refl
get-mark_bundling (h ∷ hs) k pool =
    rw (get-mark_bundling hs k, get-mark_one h k pool) (ground (arith, bundled_twice (get k pool)))

mark_one-IsSound :
    (h : String) (o : Option MempoolEntry) (pool : StandardPool)
    → IsSound pool
    → get h pool ≡ o
    → IsSound (mark_one h o pool)
unfolding mark_one
mark_one-IsSound h none pool v g = v
mark_one-IsSound h (some e) pool v g = set_status-IsSound h e bundling pool v g

mark_bundling-IsSound :
    (hs : List String) (pool : StandardPool) → IsSound pool → IsSound (mark_bundling hs pool)
unfolding mark_bundling
mark_bundling-IsSound [] pool v = v
mark_bundling-IsSound (h ∷ hs) pool v =
    mark_bundling-IsSound hs _ (mark_one-IsSound h (get h pool) pool v refl)

module _ (found : List MempoolEntry) (s : State) where
  pool-hand_out : (hand_out found s).1.standard_pool ≡ mark_bundling (hashes found) s.standard_pool
  pool-hand_out = ap (λ x. x.standard_pool) (update_pool_only_lem (mark_bundling (hashes found)) s)

  pub hand_out-IsSound : IsSound s.standard_pool → IsSound (hand_out found s).1.standard_pool
  hand_out-IsSound v = rw pool-hand_out (mark_bundling-IsSound (hashes found) s.standard_pool v)

  find_by_hash-hand_out :
      (k : String)
      → find_by_hash k (hand_out found s).1 ≡ (
          if includes (hashes found) k
          then Option.map (set_status bundling) (find_by_hash k s)
          else find_by_hash k s)
  unfolding find_by_hash
  find_by_hash-hand_out k = rw pool-hand_out (get-mark_bundling (hashes found) k s.standard_pool)

hashes-set_status :
    (status : EntryStatus) (es : List MempoolEntry)
    → hashes (map (set_status status) es) ≡ hashes es
hashes-set_status status [] = refl
hashes-set_status status (e ∷ es) = rw (hashes-set_status status es)

-- `getNextPending` returns the first `bundleSize` pending entries of the pool, in the pool's order
-- and with the status 'bundling'.
pub get_next_pending_lem :
    (config : ManagerConfig) (s : State)
    → (get_next_pending config s).0
      ≡ map (set_status bundling) (take config.bundle_size (pending_entries s))
unfolding get_next_pending
get_next_pending_lem config s = ap (map (set_status bundling)) (
    take_pending_lem config.bundle_size 0 (values s.standard_pool)
    ∙ ap (λ n. take n (pending_entries s)) (omega arith))

-- `getNextPending` sets the status 'bundling' on the entries that it returns, and leaves every other
-- entry as it was.
pub find_by_hash-get_next_pending :
    (config : ManagerConfig) (s : State) (k : String)
    → find_by_hash k (get_next_pending config s).1 ≡ (
        if includes (hashes (get_next_pending config s).0) k
        then Option.map (set_status bundling) (find_by_hash k s)
        else find_by_hash k s)
unfolding get_next_pending
find_by_hash-get_next_pending config s k =
    let found = take_pending config.bundle_size 0 (values s.standard_pool) in
    rw (hashes-set_status bundling found) (find_by_hash-hand_out found s k)

abbrev waits_at : Option MempoolEntry → Bool
waits_at o = holds_at (λ e. is_pending e.status) o

includes-take :
    (n : ℕ) (es : List MempoolEntry) (k : String)
    → includes (hashes (take n es)) k ≡ true
    → includes (hashes es) k ≡ true
includes-take zero es k h = cc
includes-take (suc n) [] k h = cc
includes-take (suc n) (e ∷ es) k h = ground (arith, includes-take n es k)

handed_out-waits :
    (config : ManagerConfig) (s : State) (k : String)
    → IsSound s.standard_pool
    → includes (hashes (get_next_pending config s).0) k ≡ true
    → waits_at (find_by_hash k s) ≡ true
unfolding find_by_hash
handed_out-waits config s k v h =
    let first = take config.bundle_size (pending_entries s) in
    let among : includes (hashes (map (set_status bundling) first)) k ≡ true =
      rw (get_next_pending_lem config s) at h in
    sym (includes-filter (λ e. is_pending e.status) s.standard_pool k v.keyed v.distinct)
    ∙ includes-take config.bundle_size (pending_entries s) k
        (rw (hashes-set_status bundling first) at among)

bundling-not_pending :
    (o : Option MempoolEntry) → waits_at (Option.map (set_status bundling) o) ≡ false
bundling-not_pending none = refl
bundling-not_pending (some e) = refl

pub get_next_pending-IsSound :
    (config : ManagerConfig) (s : State)
    → IsSound s.standard_pool
    → IsSound (get_next_pending config s).1.standard_pool
unfolding get_next_pending
get_next_pending-IsSound config s v = hand_out-IsSound _ s v

pub get_all_pending-IsSound :
    (s : State) → IsSound s.standard_pool → IsSound (get_all_pending s).1.standard_pool
unfolding get_all_pending
get_all_pending-IsSound s v = hand_out-IsSound _ s v

-- No entry is handed out twice: of a sound pool, what one call of `getNextPending` returns is not
-- returned by the next one.
pub get_next_pending_twice :
    (config : ManagerConfig) (s : State) (k : String)
    → IsSound s.standard_pool
    → includes (hashes (get_next_pending config s).0) k ≡ true
    → includes (hashes (get_next_pending config (get_next_pending config s).1).0) k ≡ false
get_next_pending_twice config s k v h =
    let s' = (get_next_pending config s).1 in
    elim (Bool-cases (includes (hashes (get_next_pending config s').0) k)) [
      | inl again ↦
          absurd (clash (handed_out-waits config s' k (get_next_pending-IsSound config s v) again))
      | inr gone ↦ gone
    ]
  where
    clash : waits_at (find_by_hash k (get_next_pending config s).1) ≡ true → ⊥
    clash waits =
        let seen =
          rw (find_by_hash-get_next_pending config s k, h, bundling-not_pending (find_by_hash k s))
            at waits in
        cc
