-- ===== src/State/Keys.antt =====
-- The keys of an update: which are picked, which are returned.
use transeptor_bundler.Prelude.{
  ◌≡◌, refl, ap, ◌∙◌, sym, Bool, true, false, not, ◌||◌, ◌&&◌, List, [], ◌∷◌, Option, none, some,
  arith, inl, inr, filter, eqb, eqb_iff, if◌then◌else◌, Bool-cases, any,
}
use transeptor_bundler.State.{
  State, StateKey, Partial, has_key, pick, keys_of, is_empty, index, key_of,
}

abbrev pub is_some {ℓ} : {A : Type ℓ} → Option A → Bool
is_some none = false
is_some (some a) = true

pub has_key-index :
    (es : List StateKey) (j k : StateKey) → index j ≡ index k → has_key es j ≡ has_key es k
has_key-index es j k e = ap (λ n. any (λ i. eqb (index i) n) es) e

-- Nothing of `xs` is filtered out as absent from `es`: `xs` is part of `es`.
pub subset :
    (xs es : List StateKey) (j : StateKey)
    → is_empty (filter (λ k. not (has_key es k)) xs) ≡ true
    → has_key xs j ≡ true
    → has_key es j ≡ true
subset [] es j h m = cc
subset (x ∷ xs) es j h m = elim (Bool-cases (has_key es x)) [
  | inl here ↦ elim (Bool-cases (eqb (index x) (index j))) [
    | inl same ↦ sym (has_key-index es x j ((eqb_iff _ _).0 same)) ∙ here
    | inr other ↦ subset xs es j (rw here at h) (rw other at m)
  ]
  | inr gone ↦ absurd (ground arith)
]

has_key-key_of {ℓ} :
    {A : Type ℓ} (k : StateKey) (o : Option A) (ks : List StateKey) (j : StateKey)
    → has_key (key_of k o ks) j ≡ (eqb (index k) (index j) && is_some o || has_key ks j)
has_key-key_of k none ks j = ground arith
has_key-key_of k (some v) ks j = ground arith

module _ (s : State) where
  pub pick-standard_pool :
      (ks : List StateKey)
      → (pick ks s).standard_pool
        ≡ (if has_key ks StateKey.standard_pool then some s.standard_pool else none)
  unfolding pick
  pick-standard_pool [] = refl
  pick-standard_pool (StateKey.standard_pool ∷ ks) = refl
  pick-standard_pool (StateKey.mempool_entry_count ∷ ks) = pick-standard_pool ks
  pick-standard_pool (StateKey.bundle_txs ∷ ks) = pick-standard_pool ks
  pick-standard_pool (StateKey.black_list ∷ ks) = pick-standard_pool ks
  pick-standard_pool (StateKey.white_list ∷ ks) = pick-standard_pool ks
  pick-standard_pool (StateKey.reputation_entries ∷ ks) = pick-standard_pool ks

  pub pick-mempool_entry_count :
      (ks : List StateKey)
      → (pick ks s).mempool_entry_count
        ≡ (if has_key ks StateKey.mempool_entry_count then some s.mempool_entry_count else none)
  unfolding pick
  pick-mempool_entry_count [] = refl
  pick-mempool_entry_count (StateKey.standard_pool ∷ ks) = pick-mempool_entry_count ks
  pick-mempool_entry_count (StateKey.mempool_entry_count ∷ ks) = refl
  pick-mempool_entry_count (StateKey.bundle_txs ∷ ks) = pick-mempool_entry_count ks
  pick-mempool_entry_count (StateKey.black_list ∷ ks) = pick-mempool_entry_count ks
  pick-mempool_entry_count (StateKey.white_list ∷ ks) = pick-mempool_entry_count ks
  pick-mempool_entry_count (StateKey.reputation_entries ∷ ks) = pick-mempool_entry_count ks

  pub pick-bundle_txs :
      (ks : List StateKey)
      → (pick ks s).bundle_txs
        ≡ (if has_key ks StateKey.bundle_txs then some s.bundle_txs else none)
  unfolding pick
  pick-bundle_txs [] = refl
  pick-bundle_txs (StateKey.standard_pool ∷ ks) = pick-bundle_txs ks
  pick-bundle_txs (StateKey.mempool_entry_count ∷ ks) = pick-bundle_txs ks
  pick-bundle_txs (StateKey.bundle_txs ∷ ks) = refl
  pick-bundle_txs (StateKey.black_list ∷ ks) = pick-bundle_txs ks
  pick-bundle_txs (StateKey.white_list ∷ ks) = pick-bundle_txs ks
  pick-bundle_txs (StateKey.reputation_entries ∷ ks) = pick-bundle_txs ks

  pub pick-black_list :
      (ks : List StateKey)
      → (pick ks s).black_list
        ≡ (if has_key ks StateKey.black_list then some s.black_list else none)
  unfolding pick
  pick-black_list [] = refl
  pick-black_list (StateKey.standard_pool ∷ ks) = pick-black_list ks
  pick-black_list (StateKey.mempool_entry_count ∷ ks) = pick-black_list ks
  pick-black_list (StateKey.bundle_txs ∷ ks) = pick-black_list ks
  pick-black_list (StateKey.black_list ∷ ks) = refl
  pick-black_list (StateKey.white_list ∷ ks) = pick-black_list ks
  pick-black_list (StateKey.reputation_entries ∷ ks) = pick-black_list ks

  pub pick-white_list :
      (ks : List StateKey)
      → (pick ks s).white_list
        ≡ (if has_key ks StateKey.white_list then some s.white_list else none)
  unfolding pick
  pick-white_list [] = refl
  pick-white_list (StateKey.standard_pool ∷ ks) = pick-white_list ks
  pick-white_list (StateKey.mempool_entry_count ∷ ks) = pick-white_list ks
  pick-white_list (StateKey.bundle_txs ∷ ks) = pick-white_list ks
  pick-white_list (StateKey.black_list ∷ ks) = pick-white_list ks
  pick-white_list (StateKey.white_list ∷ ks) = refl
  pick-white_list (StateKey.reputation_entries ∷ ks) = pick-white_list ks

  pub pick-reputation_entries :
      (ks : List StateKey)
      → (pick ks s).reputation_entries
        ≡ (if has_key ks StateKey.reputation_entries then some s.reputation_entries else none)
  unfolding pick
  pick-reputation_entries [] = refl
  pick-reputation_entries (StateKey.standard_pool ∷ ks) = pick-reputation_entries ks
  pick-reputation_entries (StateKey.mempool_entry_count ∷ ks) = pick-reputation_entries ks
  pick-reputation_entries (StateKey.bundle_txs ∷ ks) = pick-reputation_entries ks
  pick-reputation_entries (StateKey.black_list ∷ ks) = pick-reputation_entries ks
  pick-reputation_entries (StateKey.white_list ∷ ks) = pick-reputation_entries ks
  pick-reputation_entries (StateKey.reputation_entries ∷ ks) = refl

module _ (p : Partial) where
  pub keys_of-standard_pool : has_key (keys_of p) StateKey.standard_pool ≡ is_some p.standard_pool
  unfolding keys_of
  keys_of-standard_pool = simp has_key-key_of (ground arith)

  pub keys_of-mempool_entry_count :
      has_key (keys_of p) StateKey.mempool_entry_count ≡ is_some p.mempool_entry_count
  unfolding keys_of
  keys_of-mempool_entry_count = simp has_key-key_of (ground arith)

  pub keys_of-bundle_txs : has_key (keys_of p) StateKey.bundle_txs ≡ is_some p.bundle_txs
  unfolding keys_of
  keys_of-bundle_txs = simp has_key-key_of (ground arith)

  pub keys_of-black_list : has_key (keys_of p) StateKey.black_list ≡ is_some p.black_list
  unfolding keys_of
  keys_of-black_list = simp has_key-key_of (ground arith)

  pub keys_of-white_list : has_key (keys_of p) StateKey.white_list ≡ is_some p.white_list
  unfolding keys_of
  keys_of-white_list = simp has_key-key_of (ground arith)

  pub keys_of-reputation_entries :
      has_key (keys_of p) StateKey.reputation_entries ≡ is_some p.reputation_entries
  unfolding keys_of
  keys_of-reputation_entries = simp has_key-key_of (ground arith)
