-- ===== src/State.antt =====
-- state/state.ts: the one store of the node. A capability opens it, and an update is one atomic
-- step under the mutex: the callback sees the picked keys and must return exactly those keys.
pub mod Keys
pub mod Laws
use transeptor_bundler.Prelude.{
  ℕ, String, Bool, true, false, ◌&&◌, not, List, [], ◌∷◌, Option, none, some, eqb, if◌then◌else◌,
  filter, any,
}
use transeptor_bundler.Types.{StandardPool, EntryCount, BundleTxs, ReputationEntries}

pub record State : Type 0 where
  pub standard_pool : StandardPool
  pub mempool_entry_count : EntryCount
  pub bundle_txs : BundleTxs
  pub black_list : List String
  pub white_list : List String
  pub reputation_entries : ReputationEntries

pub data StateKey : Type 0 where
  standard_pool mempool_entry_count bundle_txs black_list white_list reputation_entries : StateKey

-- Partial<State>: a missing key is `none`.
pub record Partial : Type 0 where
  pub standard_pool : Option StandardPool
  pub mempool_entry_count : Option EntryCount
  pub bundle_txs : Option BundleTxs
  pub black_list : Option (List String)
  pub white_list : Option (List String)
  pub reputation_entries : Option ReputationEntries

abbrev pub init : State
init = record {
  standard_pool = [];
  mempool_entry_count = [];
  bundle_txs = [];
  black_list = [];
  white_list = [];
  reputation_entries = [];
}

abbrev pub empty : Partial
empty = record {
  standard_pool = none;
  mempool_entry_count = none;
  bundle_txs = none;
  black_list = none;
  white_list = none;
  reputation_entries = none;
}

-- The keys are texts in the source, and distinct: they are told apart by a number.
abbrev index : StateKey → ℕ
index StateKey.standard_pool = 0
index StateKey.mempool_entry_count = 1
index StateKey.bundle_txs = 2
index StateKey.black_list = 3
index StateKey.white_list = 4
index StateKey.reputation_entries = 5

abbrev pub has_key : List StateKey → StateKey → Bool
has_key ks k = any (λ j. eqb (index j) (index k)) ks

-- selected[key] = state[key]
abbrev select : StateKey → State → Partial → Partial
select StateKey.standard_pool s p = record p { standard_pool = some s.standard_pool }
select StateKey.mempool_entry_count s p = record p {
  mempool_entry_count = some s.mempool_entry_count;
}
select StateKey.bundle_txs s p = record p { bundle_txs = some s.bundle_txs }
select StateKey.black_list s p = record p { black_list = some s.black_list }
select StateKey.white_list s p = record p { white_list = some s.white_list }
select StateKey.reputation_entries s p = record p { reputation_entries = some s.reputation_entries }

unfoldable pub pick : List StateKey → State → Partial
pick [] s = empty
pick (k ∷ ks) s = select k s (pick ks s)

abbrev key_of {ℓ} : {A : Type ℓ} → StateKey → Option A → List StateKey → List StateKey
key_of k none ks = ks
key_of k (some v) ks = k ∷ ks

-- Object.keys(updatedValues)
unfoldable pub keys_of : Partial → List StateKey
keys_of p = key_of StateKey.standard_pool p.standard_pool (
    key_of StateKey.mempool_entry_count p.mempool_entry_count (
      key_of StateKey.bundle_txs p.bundle_txs (
        key_of StateKey.black_list p.black_list (
          key_of StateKey.white_list p.white_list
            (key_of StateKey.reputation_entries p.reputation_entries [])))))

abbrev is_empty {ℓ} : {A : Type ℓ} → List A → Bool
is_empty [] = true
is_empty (x ∷ xs) = false

abbrev pub validate_non_empty : Partial → Bool
validate_non_empty p = not (is_empty (keys_of p))

abbrev pub validate_keys_match : List StateKey → List StateKey → Bool
validate_keys_match updated expected =
    is_empty (filter (λ k. not (has_key updated k)) expected)
    && is_empty (filter (λ k. not (has_key expected k)) updated)

abbrev pub or_else {ℓ} : {A : Type ℓ} → Option A → A → A
or_else none a = a
or_else (some b) a = b

-- Object.assign(newState, updatedValues)
unfoldable pub assign : State → Partial → State
assign s p = record {
  standard_pool = or_else p.standard_pool s.standard_pool;
  mempool_entry_count = or_else p.mempool_entry_count s.mempool_entry_count;
  bundle_txs = or_else p.bundle_txs s.bundle_txs;
  black_list = or_else p.black_list s.black_list;
  white_list = or_else p.white_list s.white_list;
  reputation_entries = or_else p.reputation_entries s.reputation_entries;
}

-- The body of `updateState` once the capability is verified. A single key is the one-element list.
unfoldable pub apply_update : List StateKey → (Partial → Partial) → State → Bool × State
apply_update ks update_fn s =
    let updated = update_fn (pick ks s) in
    if validate_non_empty updated && validate_keys_match (keys_of updated) ks
    then (true, assign s updated)
    else (false, s)

-- What a call gives its caller: a value, or the exception 'Caller does not have access'.
pub data Access {ℓ} (A : Type ℓ) : Type ℓ where
  granted : A → Access A
  denied : Access A

-- `verify` is the capability verifier that the service is built with.
module _ {ℓ} {Capability : Type ℓ} (verify : Capability → Bool) where
  unfoldable pub get_state : Capability → List StateKey → State → Access Partial
  get_state cap ks s = if verify cap then granted (pick ks s) else denied

  unfoldable pub update_state :
      Capability → List StateKey → (Partial → Partial) → State → Access (Bool × State)
  update_state cap ks update_fn s =
      if verify cap then granted (apply_update ks update_fn s) else denied
