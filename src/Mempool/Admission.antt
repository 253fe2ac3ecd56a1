-- ===== src/Mempool/Admission.antt =====
-- The checks that a new operation passes before it enters the pool: reputation and stake of each of
-- its entities, or the fees of a replacement.
use transeptor_bundler.Prelude.{
  ℕ, ◌≤◌, ◌<◌, String, ◌≡◌, ◌≢◌, refl, ap, ◌∙◌, ◌⊎◌, ◌↔◌, Bool, List, Option, none, some, arith,
  ltb, leb, if◌then◌else◌,
}
use transeptor_bundler.Prelude.Dict.{get}
use transeptor_bundler.Prelude.Text.{to_lower_case}
use transeptor_bundler.Types.{throttled, banned, StakeInfo, MempoolEntry, StandardPool, EntryCount}
use transeptor_bundler.Errors.{RpcError, EntityTitle, account, paymaster, deployer, aggregator}
use transeptor_bundler.Outcome.{Result, returned, thrown, ◌>>=◌, ◌>>◌, Either, left, right}
use transeptor_bundler.Outcome
use transeptor_bundler.State.{State, or_else}
use transeptor_bundler.Reputation.{get_status, calculate_max_allowed_mempool_ops_unstaked}
use transeptor_bundler.Reputation.Checks.{StakeConfig, check_banned, check_throttled, check_stake}
use transeptor_bundler.Mempool.{
  MempoolEntryMetadata, MempoolEntryWithMetadata, find_by_sender_nonce, check_replace_user_op,
  check_multiple_roles_violation, get_known_entities, get_known_senders,
}

abbrev pub throttled_entity_mempool_count : ℕ
throttled_entity_mempool_count = 4

abbrev pub max_mempool_userops_per_sender : ℕ
max_mempool_userops_per_sender = 4

abbrev pub found_count : EntryCount → StakeInfo → ℕ
found_count counts info = or_else (get (to_lower_case info.addr) counts) 0

-- maxTxMempoolAllowedOverride ?? calculateMaxAllowedMempoolOpsUnstaked(…)
abbrev pub allowed : Option ℕ → StakeInfo → State → ℕ
allowed none info s = calculate_max_allowed_mempool_ops_unstaked info.addr s
allowed (some limit) info s = limit

abbrev when : Bool → Result (Unit {0}) → Result (Unit {0})
when b m = if b then m else returned tt

module _ (config : StakeConfig) (counts : EntryCount) (s : State) where
  unfoldable pub check_reputation_status : EntityTitle → StakeInfo → Option ℕ → Result (Unit {0})
  check_reputation_status title info max_override = do
    check_banned title info s
    when (ltb throttled_entity_mempool_count (found_count counts info))
        (check_throttled title info s)
    when (leb (allowed max_override info s) (found_count counts info))
        (check_stake config title (some info) s)

  -- An entity that is optional, with the limit of an unstaked entity.
  abbrev check_optional : EntityTitle → Option StakeInfo → Result (Unit {0})
  check_optional title none = returned tt
  check_optional title (some info) = check_reputation_status title info none

  unfoldable pub check_reputation : MempoolEntryMetadata → Result (Unit {0})
  check_reputation metadata = do
    check_reputation_status account metadata.sender_info (some max_mempool_userops_per_sender)
    check_optional paymaster metadata.paymaster_info
    check_optional deployer metadata.factory_info
    check_optional aggregator metadata.aggregator_info

  -- The two ways of `replaceOrAddUserOpChecks`, by the entry in the operation's slot.
  unfoldable pub checks_for :
      StandardPool
      → MempoolEntryWithMetadata
      → Option MempoolEntry
      → Result (Either RpcError MempoolEntryWithMetadata)
  checks_for pool (entry, metadata) (some old) = returned (
      Outcome.flat_map
        (Outcome.map {R = MempoolEntryWithMetadata} (right (entry, metadata))
          (λ em. (em.0, record em.1 { old_entry = some old })))
        check_replace_user_op)
  checks_for pool (entry, metadata) none = do
    check_reputation metadata
    returned (
        check_multiple_roles_violation (entry, metadata) (get_known_entities pool)
          (get_known_senders pool))

  unfoldable pub replace_or_add_user_op_checks :
      StandardPool → MempoolEntryWithMetadata → Result (Either RpcError MempoolEntryWithMetadata)
  unfolding checks_for
  replace_or_add_user_op_checks pool (entry, metadata) =
      checks_for pool (entry, metadata)
        (find_by_sender_nonce entry.user_op.sender entry.user_op.nonce pool)

-- What the rules ask of an entity: it is not banned, throttled entities have at most four operations
-- in the pool, and whoever has as many as an unstaked entity may have is staked.
abbrev pub IsStaked : StakeConfig → StakeInfo → Type 0
IsStaked config info =
    (config.min_stake ≤ info.stake) × (config.min_unstake_delay ≤ info.unstake_delay_sec)

abbrev pub Admissible : StakeConfig → EntryCount → State → StakeInfo → ℕ → Type 0
Admissible config counts s info limit =
    (get_status (some info.addr) s ≢ banned)
    × ((found_count counts info ≤ 4) ⊎ (get_status (some info.addr) s ≢ throttled))
    × ((found_count counts info < limit) ⊎ IsStaked config info)

abbrev pub AdmissibleOptional : StakeConfig → EntryCount → State → Option StakeInfo → Type 0
AdmissibleOptional config counts s none = Unit
AdmissibleOptional config counts s (some info) =
    Admissible config counts s info (calculate_max_allowed_mempool_ops_unstaked info.addr s)

>>-returned :
    (m k : Result (Unit {0})) → ((m >> k) ≡ returned tt) ↔ ((m ≡ returned tt) × (k ≡ returned tt))
>>-returned (returned tt) k = ((λ h. (refl, h)), (λ h. h.1))
>>-returned (thrown e) k = ((λ h. cc), (λ h. cc))

module _ (config : StakeConfig) (counts : EntryCount) (s : State) where
  check_reputation_status_iff :
      (title : EntityTitle) (info : StakeInfo) (max_override : Option ℕ)
      → (check_reputation_status config counts s title info max_override ≡ returned tt)
        ↔ Admissible config counts s info (allowed max_override info s)
  unfolding check_reputation_status check_banned check_throttled check_stake
  check_reputation_status_iff title info max_override = ground arith

  check_optional_iff :
      (title : EntityTitle) (info : Option StakeInfo)
      → (check_optional config counts s title info ≡ returned tt)
        ↔ AdmissibleOptional config counts s info
  check_optional_iff title none = ((λ _. tt), (λ _. refl))
  check_optional_iff title (some info) = check_reputation_status_iff title info none

  -- The reputation checks let an operation pass exactly if its sender (of which at most four
  -- operations may wait without stake), its paymaster, its factory and its aggregator are each
  -- admissible: not banned, not throttled with more than four operations in the pool, and staked or
  -- below the limit of an unstaked entity.
  pub check_reputation_iff :
      (metadata : MempoolEntryMetadata)
      → (check_reputation config counts s metadata ≡ returned tt) ↔ (
          Admissible config counts s metadata.sender_info max_mempool_userops_per_sender
          × AdmissibleOptional config counts s metadata.paymaster_info
          × AdmissibleOptional config counts s metadata.factory_info
          × AdmissibleOptional config counts s metadata.aggregator_info)
  unfolding check_reputation
  check_reputation_iff metadata =
      let m = metadata in
      let sender = check_reputation_status config counts s account m.sender_info (some 4) in
      let pays = check_optional config counts s paymaster m.paymaster_info in
      let deploys = check_optional config counts s deployer m.factory_info in
      let aggregates = check_optional config counts s aggregator m.aggregator_info in
      let first = >>-returned sender (pays >> (deploys >> aggregates)) in
      let second = >>-returned pays (deploys >> aggregates) in
      let third = >>-returned deploys aggregates in
      let sender_iff = check_reputation_status_iff account m.sender_info (some 4) in
      let pays_iff = check_optional_iff paymaster m.paymaster_info in
      let deploys_iff = check_optional_iff deployer m.factory_info in
      let aggregates_iff = check_optional_iff aggregator m.aggregator_info in
      (
        (λ h.
            let (a, rest) = first.0 h in
            let (b, rest') = second.0 rest in
            let (c, d) = third.0 rest' in
            (sender_iff.0 a, pays_iff.0 b, deploys_iff.0 c, aggregates_iff.0 d)),
        (λ (a, b, c, d). first.1 (
          sender_iff.1 a,
          second.1 (pays_iff.1 b, third.1 (deploys_iff.1 c, aggregates_iff.1 d)),
        )),
      )

check_replace_user_op-right :
    (em x : MempoolEntryWithMetadata) → check_replace_user_op em ≡ right x → x ≡ em
unfolding check_replace_user_op
check_replace_user_op-right (entry, metadata) x h = ground arith

check_multiple_roles_violation-right :
    (em x : MempoolEntryWithMetadata) (a b : List String)
    → check_multiple_roles_violation em a b ≡ right x
    → x ≡ em
unfolding check_multiple_roles_violation
check_multiple_roles_violation-right (entry, metadata) x a b h = ground arith

same_right : {x y : Either RpcError MempoolEntryWithMetadata} → returned x ≡ returned y → x ≡ y
same_right h = cc

roles_after :
    (r : Result (Unit {0})) (em x : MempoolEntryWithMetadata) (a b : List String)
    → (r >> returned (check_multiple_roles_violation em a b)) ≡ returned (right x)
    → x ≡ em
roles_after (thrown e) em x a b h = cc
roles_after (returned _) em x a b h = check_multiple_roles_violation-right em x a b (same_right h)

checks_for-right :
    (config : StakeConfig) (counts : EntryCount) (s : State) (pool : StandardPool)
    (entry : MempoolEntry) (metadata : MempoolEntryMetadata) (found : Option MempoolEntry)
    (x : MempoolEntryWithMetadata)
    → metadata.old_entry ≡ none
    → checks_for config counts s pool (entry, metadata) found ≡ returned (right x)
    → x ≡ (entry, record metadata { old_entry = found })
unfolding checks_for
checks_for-right config counts s pool entry metadata (some old) x fresh h =
    check_replace_user_op-right (entry, record metadata { old_entry = some old }) x (same_right h)
checks_for-right config counts s pool entry metadata none x fresh h =
    roles_after (check_reputation config counts s metadata) (entry, metadata) x _ _ h
    ∙ ap (λ o. (entry, record metadata { old_entry = o })) fresh

-- The checks pass on the new entry, with the entry that it replaces.
pub checks-right :
    (config : StakeConfig) (s : State) (entry : MempoolEntry) (metadata : MempoolEntryMetadata)
    (x : MempoolEntryWithMetadata)
    → metadata.old_entry ≡ none
    → replace_or_add_user_op_checks config s.mempool_entry_count s s.standard_pool (entry, metadata)
      ≡ returned (right x)
    → (x.0 ≡ entry)
      × (x.1.old_entry
          ≡ find_by_sender_nonce entry.user_op.sender entry.user_op.nonce s.standard_pool)
unfolding replace_or_add_user_op_checks
checks-right config s entry metadata x fresh h =
    let same =
      checks_for-right config s.mempool_entry_count s s.standard_pool entry metadata _ x fresh h in
    (ap (λ y. y.0) same, ap (λ y. y.1.old_entry) same)
