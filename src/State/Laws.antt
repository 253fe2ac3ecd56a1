-- ===== src/State/Laws.antt =====
use transeptor_bundler.Prelude.{
  ◌≡◌, refl, ap, subst, ◌⊎◌, ◌∙◌, sym, Bool, true, false, ◌&&◌, List, Option, none, some, arith,
  inl, inr, if◌then◌else◌, Bool-cases,
}
use transeptor_bundler.State.{
  State, StateKey, Partial, granted, has_key, pick, keys_of, assign, or_else, apply_update,
  validate_keys_match, validate_non_empty, get_state, update_state,
}
use transeptor_bundler.State.Keys.{
  is_some, subset, pick-standard_pool, pick-mempool_entry_count, pick-bundle_txs, pick-black_list,
  pick-white_list, pick-reputation_entries, keys_of-standard_pool, keys_of-mempool_entry_count,
  keys_of-bundle_txs, keys_of-black_list, keys_of-white_list, keys_of-reputation_entries,
}

-- Two states that hold the same value under a key.
abbrev pub SameAt : StateKey → State → State → Type 0
SameAt StateKey.standard_pool s t = s.standard_pool ≡ t.standard_pool
SameAt StateKey.mempool_entry_count s t = s.mempool_entry_count ≡ t.mempool_entry_count
SameAt StateKey.bundle_txs s t = s.bundle_txs ≡ t.bundle_txs
SameAt StateKey.black_list s t = s.black_list ≡ t.black_list
SameAt StateKey.white_list s t = s.white_list ≡ t.white_list
SameAt StateKey.reputation_entries s t = s.reputation_entries ≡ t.reputation_entries

or_else-none {ℓ} : {A : Type ℓ} (o : Option A) (a : A) → is_some o ≡ false → or_else o a ≡ a
or_else-none none a h = refl
or_else-none (some b) a h = cc

-- A field that was picked, written and picked again.
reread {ℓ} :
    {A : Type ℓ} (b : Bool) (o : Option A) (a : A)
    → (b ≡ true → is_some o ≡ true)
    → (is_some o ≡ true → b ≡ true)
    → (if b then some (or_else o a) else none) ≡ o
reread true none a h k = ground (arith, h refl)
reread true (some v) a h k = refl
reread false none a h k = refl
reread false (some v) a h k = ground (arith, k refl)

not_in : (b c : Bool) → (b ≡ true → c ≡ true) → c ≡ false → b ≡ false
not_in true c h k = ground (arith, h refl)
not_in false c h k = refl

-- An update that passes `validateKeysMatch` returns only keys that were asked for.
module _ (ks : List StateKey) (p : Partial)
    (matches : validate_keys_match (keys_of p) ks ≡ true) where
  returned-asked : (k : StateKey) → has_key (keys_of p) k ≡ true → has_key ks k ≡ true
  returned-asked k h = subset (keys_of p) ks k (ground arith) h

  asked-returned : (k : StateKey) → has_key ks k ≡ true → has_key (keys_of p) k ≡ true
  asked-returned k h = subset ks (keys_of p) k (ground arith) h

  assign-SameAt : (s : State) (k : StateKey) → has_key ks k ≡ false → SameAt k (assign s p) s
  unfolding assign
  assign-SameAt s StateKey.standard_pool h =
      or_else-none p.standard_pool s.standard_pool
        (sym (keys_of-standard_pool p) ∙ not_in _ _ (returned-asked StateKey.standard_pool) h)
  assign-SameAt s StateKey.mempool_entry_count h =
      or_else-none p.mempool_entry_count s.mempool_entry_count (
        sym (keys_of-mempool_entry_count p)
        ∙ not_in _ _ (returned-asked StateKey.mempool_entry_count) h)
  assign-SameAt s StateKey.bundle_txs h =
      or_else-none p.bundle_txs s.bundle_txs
        (sym (keys_of-bundle_txs p) ∙ not_in _ _ (returned-asked StateKey.bundle_txs) h)
  assign-SameAt s StateKey.black_list h =
      or_else-none p.black_list s.black_list
        (sym (keys_of-black_list p) ∙ not_in _ _ (returned-asked StateKey.black_list) h)
  assign-SameAt s StateKey.white_list h =
      or_else-none p.white_list s.white_list
        (sym (keys_of-white_list p) ∙ not_in _ _ (returned-asked StateKey.white_list) h)
  assign-SameAt s StateKey.reputation_entries h =
      or_else-none p.reputation_entries s.reputation_entries (
        sym (keys_of-reputation_entries p)
        ∙ not_in _ _ (returned-asked StateKey.reputation_entries) h)

  field_standard_pool : (s : State) → (pick ks (assign s p)).standard_pool ≡ p.standard_pool
  field_standard_pool s =
      pick-standard_pool (assign s p) ks
      ∙ (unfold assign in
          reread (has_key ks StateKey.standard_pool) p.standard_pool s.standard_pool
            (λ h. sym (keys_of-standard_pool p) ∙ asked-returned StateKey.standard_pool h)
            (λ h. returned-asked StateKey.standard_pool (keys_of-standard_pool p ∙ h)))

  field_mempool_entry_count :
      (s : State) → (pick ks (assign s p)).mempool_entry_count ≡ p.mempool_entry_count
  field_mempool_entry_count s =
      pick-mempool_entry_count (assign s p) ks
      ∙ (unfold assign in
          reread (has_key ks StateKey.mempool_entry_count) p.mempool_entry_count
            s.mempool_entry_count
            (λ h.
              sym (keys_of-mempool_entry_count p) ∙ asked-returned StateKey.mempool_entry_count h)
            (λ h. returned-asked StateKey.mempool_entry_count (keys_of-mempool_entry_count p ∙ h)))

  field_bundle_txs : (s : State) → (pick ks (assign s p)).bundle_txs ≡ p.bundle_txs
  field_bundle_txs s =
      pick-bundle_txs (assign s p) ks
      ∙ (unfold assign in
          reread (has_key ks StateKey.bundle_txs) p.bundle_txs s.bundle_txs
            (λ h. sym (keys_of-bundle_txs p) ∙ asked-returned StateKey.bundle_txs h)
            (λ h. returned-asked StateKey.bundle_txs (keys_of-bundle_txs p ∙ h)))

  field_black_list : (s : State) → (pick ks (assign s p)).black_list ≡ p.black_list
  field_black_list s =
      pick-black_list (assign s p) ks
      ∙ (unfold assign in
          reread (has_key ks StateKey.black_list) p.black_list s.black_list
            (λ h. sym (keys_of-black_list p) ∙ asked-returned StateKey.black_list h)
            (λ h. returned-asked StateKey.black_list (keys_of-black_list p ∙ h)))

  field_white_list : (s : State) → (pick ks (assign s p)).white_list ≡ p.white_list
  field_white_list s =
      pick-white_list (assign s p) ks
      ∙ (unfold assign in
          reread (has_key ks StateKey.white_list) p.white_list s.white_list
            (λ h. sym (keys_of-white_list p) ∙ asked-returned StateKey.white_list h)
            (λ h. returned-asked StateKey.white_list (keys_of-white_list p ∙ h)))

  field_reputation_entries :
      (s : State) → (pick ks (assign s p)).reputation_entries ≡ p.reputation_entries
  field_reputation_entries s =
      pick-reputation_entries (assign s p) ks
      ∙ (unfold assign in
          reread (has_key ks StateKey.reputation_entries) p.reputation_entries s.reputation_entries
            (λ h. sym (keys_of-reputation_entries p) ∙ asked-returned StateKey.reputation_entries h)
            (λ h. returned-asked StateKey.reputation_entries (keys_of-reputation_entries p ∙ h)))

  pick-assign : (s : State) → pick ks (assign s p) ≡ p
  pick-assign s = λ i. record {
    standard_pool = field_standard_pool s i;
    mempool_entry_count = field_mempool_entry_count s i;
    bundle_txs = field_bundle_txs s i;
    black_list = field_black_list s i;
    white_list = field_white_list s i;
    reputation_entries = field_reputation_entries s i;
  }

SameAt-refl : (s : State) (k : StateKey) → SameAt k s s
SameAt-refl s StateKey.standard_pool = refl
SameAt-refl s StateKey.mempool_entry_count = refl
SameAt-refl s StateKey.bundle_txs = refl
SameAt-refl s StateKey.black_list = refl
SameAt-refl s StateKey.white_list = refl
SameAt-refl s StateKey.reputation_entries = refl

abbrev commit : List StateKey → Partial → State → Bool × State
commit ks p s =
    if validate_non_empty p && validate_keys_match (keys_of p) ks
    then (true, assign s p)
    else (false, s)

commit_cases {ℓ} :
    (P : Bool × State → Type ℓ) (ks : List StateKey) (p : Partial) (s : State)
    → P (false, s)
    → (validate_keys_match (keys_of p) ks ≡ true → P (true, assign s p))
    → P (commit ks p s)
commit_cases P ks p s no_change changed = elim (Bool-cases (validate_keys_match (keys_of p) ks)) [
  | inl m ↦ elim (Bool-cases (validate_non_empty p)) [
    | inl full ↦ rw (full, m) (changed m)
    | inr hollow ↦ rw hollow no_change
  ]
  | inr m ↦ elim (Bool-cases (validate_non_empty p)) [
    | inl full ↦ rw (full, m) no_change
    | inr hollow ↦ rw hollow no_change
  ]
]

refused_same :
    (ks : List StateKey) (p : Partial) (s : State) (k : StateKey)
    → (commit ks p s).0 ≡ false
    → SameAt k (commit ks p s).1 s
refused_same ks p s k =
    commit_cases (λ r. r.0 ≡ false → SameAt k r.1 s) ks p s (λ h. SameAt-refl s k) (λ m h. cc)

accepted_reread :
    (ks : List StateKey) (p : Partial) (s : State)
    → (commit ks p s).0 ≡ true
    → pick ks (commit ks p s).1 ≡ p
accepted_reread ks p s =
    commit_cases (λ r. r.0 ≡ true → pick ks r.1 ≡ p) ks p s (λ h. cc) (λ m h. pick-assign ks p m s)

-- Whatever the callback returns, an update changes no key that was not asked for, and a refused
-- update changes nothing.
pub apply_update-SameAt :
    (ks : List StateKey) (update_fn : Partial → Partial) (s : State) (k : StateKey)
    → (has_key ks k ≡ false) ⊎ ((apply_update ks update_fn s).0 ≡ false)
    → SameAt k (apply_update ks update_fn s).1 s
unfolding apply_update
apply_update-SameAt ks f s k (inl h) =
    commit_cases (λ r. SameAt k r.1 s) ks (f (pick ks s)) s (SameAt-refl s k)
      (λ m. assign-SameAt ks (f (pick ks s)) m s k h)
apply_update-SameAt ks f s k (inr h) = refused_same ks (f (pick ks s)) s k h

pick-apply_update :
    (ks : List StateKey) (update_fn : Partial → Partial) (s : State)
    → (apply_update ks update_fn s).0 ≡ true
    → pick ks (apply_update ks update_fn s).1 ≡ update_fn (pick ks s)
unfolding apply_update
pick-apply_update ks f s = accepted_reread ks (f (pick ks s)) s

granted-injective {ℓ} : {A : Type ℓ} {a b : A} → granted a ≡ granted b → a ≡ b
granted-injective h = cc

-- An accepted update is read back: with a capability that verifies, reading the same keys from the
-- new state gives exactly what the callback returned.
pub get_state-update_state {ℓ} :
    {Capability : Type ℓ} (verify : Capability → Bool) (cap : Capability) (ks : List StateKey)
    (update_fn : Partial → Partial) (s t : State)
    → update_state verify cap ks update_fn s ≡ granted (true, t)
    → get_state verify cap ks t ≡ granted (update_fn (pick ks s))
unfolding get_state update_state
get_state-update_state verify cap ks f s t h = elim (Bool-cases (verify cap)) [
  | inl verified ↦
      let e : apply_update ks f s ≡ (true, t) = granted-injective (rw verified at h) in
      rw verified (
        ap granted
          (subst (λ r. pick ks r.1 ≡ f (pick ks s)) e (pick-apply_update ks f s (ap (λ r. r.0) e))))
  | inr refused ↦ cc (rw refused at h)
]
