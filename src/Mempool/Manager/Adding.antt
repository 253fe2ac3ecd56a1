-- ===== src/Mempool/Manager/Adding.antt =====
-- `addUserOp`: what it stores, and that a refused operation changes nothing.
use transeptor_bundler.Prelude.{
  String, ◌≡◌, ◌≢◌, refl, sym, ap, ◌∙◌, subst, ◌==◌, Option, none, some, if◌then◌else◌,
}
use transeptor_bundler.Prelude.Dict.{get, dict_laws}
use transeptor_bundler.Types.{MempoolEntry, UserOperation, StakeInfo}
use transeptor_bundler.Errors.{RpcError}
use transeptor_bundler.Outcome.{Result, returned, thrown, ◌>>◌, Either, left, right}
use transeptor_bundler.State.{State}
use transeptor_bundler.Reputation.{SeenAction, increment, decrement}
use transeptor_bundler.Reputation.Updates.{pool-update_seen_status}
use transeptor_bundler.Reputation.Checks.{StakeConfig}
use transeptor_bundler.Mempool.{
  MempoolEntryMetadata, MempoolEntryWithMetadata, find_by_sender_nonce, update_pool,
  do_update_mempool_state,
}
use transeptor_bundler.Mempool.Slots.{IsSound, update_pool-IsSound}
use transeptor_bundler.Mempool.Admission.{checks-right}
use transeptor_bundler.Mempool.Manager.{
  ManagerConfig, RelayUserOpParam, new_entry, new_metadata, update_seen_statuses, update_both,
  store_entry, sender_seen, unsee_old, conclude, add_user_op, find_by_hash,
}

module _ (config : StakeConfig) (info : StakeInfo) where
  pool-sender_seen :
      (r : Result (Unit {0})) (sender : String) (s : State)
      → (sender_seen r sender s).standard_pool ≡ s.standard_pool
  unfolding sender_seen
  pool-sender_seen (returned _) sender s = (pool-update_seen_status (some sender) increment s).0
  pool-sender_seen (thrown _) sender s = refl

  pool-update_seen_statuses :
      (a : Option String) (op : UserOperation) (action : SeenAction) (s : State)
      → (update_seen_statuses config a op info action s).standard_pool ≡ s.standard_pool
  unfolding update_seen_statuses
  pool-update_seen_statuses a op action s =
      (pool-update_seen_status op.factory action _).0
      ∙ (pool-update_seen_status op.paymaster action _).0
      ∙ (pool-update_seen_status a action _).0
      ∙ pool-sender_seen _ op.sender s

pool-unsee_old :
    (config : ManagerConfig) (p : RelayUserOpParam) (o : Option MempoolEntry) (s : State)
    → (unsee_old config p o s).standard_pool ≡ s.standard_pool
unfolding unsee_old
pool-unsee_old config p none s = refl
pool-unsee_old config p (some old) s =
    pool-update_seen_statuses config.stake p.sender_info old.aggregator old.user_op decrement s

-- What stands under a hash once the entry of the new operation's slot, if there is one, is gone.
abbrev pub without : Option MempoolEntry → String → State → Option MempoolEntry
without none k s = find_by_hash k s
without (some old) k s = if old.user_op_hash == k then none else find_by_hash k s

get-update_pool :
    (entry : MempoolEntry) (o : Option MempoolEntry) (s : State) (k : String)
    → get k (update_pool entry o s.standard_pool)
      ≡ (if entry.user_op_hash == k then some entry else without o k s)
unfolding update_pool find_by_hash
get-update_pool entry none s k = simp dict_laws
get-update_pool entry (some old) s k = simp dict_laws

-- The pool after a successful `addUserOp`.
pool-store_entry :
    (config : ManagerConfig) (p : RelayUserOpParam) (entry : MempoolEntry)
    (metadata : MempoolEntryMetadata) (s : State)
    → (store_entry config p entry metadata s).standard_pool
      ≡ update_pool entry metadata.old_entry s.standard_pool
unfolding store_entry update_both do_update_mempool_state
pool-store_entry config p entry metadata s =
    pool-update_seen_statuses config.stake p.sender_info _ p.user_op increment _
    ∙ pool-unsee_old config p metadata.old_entry _

after-returned {ℓ} :
    {A : Type ℓ} (m : Result (Unit {0})) (k : Result A) {a : A}
    → (m >> k) ≡ returned a
    → k ≡ returned a
after-returned (returned _) k h = h
after-returned (thrown e) k h = cc

found_again :
    (config : ManagerConfig) (p : RelayUserOpParam) (metadata : MempoolEntryMetadata) (s : State)
    (k : String)
    → find_by_hash k (store_entry config p (new_entry p) metadata s)
      ≡ (if p.user_op_hash == k then some (new_entry p) else without metadata.old_entry k s)
unfolding find_by_hash
found_again config p metadata s k =
    rw (pool-store_entry config p (new_entry p) metadata s)
      (get-update_pool (new_entry p) metadata.old_entry s k)

-- The outcomes of `addUserOp`: it is refused and changes nothing, or it stores the new entry in place
-- of the one that was found in its slot.
module _ {ℓ} (P : Result (Either RpcError String) × State → Type ℓ) (config : ManagerConfig)
    (p : RelayUserOpParam) (s : State)
    (refused : (r : Result (Either RpcError String))
      → r ≢ returned (right p.user_op_hash)
      → P (r, s))
    (stored : (metadata : MempoolEntryMetadata)
      → metadata.old_entry ≡ find_by_sender_nonce p.user_op.sender p.user_op.nonce s.standard_pool
      → P (returned (right p.user_op_hash), store_entry config p (new_entry p) metadata s)) where
  conclude_cases :
      (r : Result (Either RpcError MempoolEntryWithMetadata))
      → ((em : MempoolEntryWithMetadata)
          → r ≡ returned (right em)
          → (em.0 ≡ new_entry p)
            × (em.1.old_entry
                ≡ find_by_sender_nonce p.user_op.sender p.user_op.nonce s.standard_pool))
      → P (conclude config p r s)
  unfolding conclude
  conclude_cases (thrown e) valid = refused (thrown e) (λ h. cc)
  conclude_cases (returned (left e)) valid = refused (returned (left e)) (λ h. cc)
  conclude_cases (returned (right (entry, metadata))) valid =
      let (same, old) = valid (entry, metadata) refl in
      subst (λ x. P (returned (right p.user_op_hash), store_entry config p x metadata s)) (sym same)
        (stored metadata old)

  add_user_op_cases : P (add_user_op config p s)
  unfolding add_user_op
  add_user_op_cases = conclude_cases _ (λ em h.
      checks-right config.stake s (new_entry p) (new_metadata p) em refl (after-returned _ _ h))

-- A refused operation, whether it is refused by an exception or by a `Left`, changes nothing.
pub add_user_op_refused :
    (config : ManagerConfig) (p : RelayUserOpParam) (s : State)
    → (add_user_op config p s).0 ≢ returned (right p.user_op_hash)
    → (add_user_op config p s).1 ≡ s
add_user_op_refused config p s =
    add_user_op_cases (λ r. r.0 ≢ returned (right p.user_op_hash) → r.1 ≡ s) config p s
      (λ r no h. refl) (λ metadata old h. absurd (h refl))

-- An operation that `addUserOp` accepts is found under its hash, pending, in place of the entry of
-- its sender (in lower case) and nonce if there is one; every other entry is as before.
pub find_by_hash-add_user_op :
    (config : ManagerConfig) (p : RelayUserOpParam) (s : State) (k : String)
    → (add_user_op config p s).0 ≡ returned (right p.user_op_hash)
    → find_by_hash k (add_user_op config p s).1 ≡ (
        if p.user_op_hash == k
        then some (new_entry p)
        else without (find_by_sender_nonce p.user_op.sender p.user_op.nonce s.standard_pool) k s)
find_by_hash-add_user_op config p s k =
    let old = find_by_sender_nonce p.user_op.sender p.user_op.nonce s.standard_pool in
    add_user_op_cases
      (λ r.
        r.0 ≡ returned (right p.user_op_hash)
        → find_by_hash k r.1
          ≡ (if p.user_op_hash == k then some (new_entry p) else without old k s))
      config p s (λ r no h. absurd (no h))
      (λ metadata same h.
        found_again config p metadata s k
        ∙ ap (λ o. if p.user_op_hash == k then some (new_entry p) else without o k s) same)

-- `addUserOp` keeps the pool sound, accepted or not: every entry stands under its hash, and no two
-- entries share a sender (in lower case) and a nonce.
pub add_user_op-IsSound :
    (config : ManagerConfig) (p : RelayUserOpParam) (s : State)
    → IsSound s.standard_pool
    → IsSound (add_user_op config p s).1.standard_pool
add_user_op-IsSound config p s v =
    add_user_op_cases (λ r. IsSound r.1.standard_pool) config p s (λ r no. v)
      (λ metadata old.
        subst IsSound
          (sym (
            pool-store_entry config p (new_entry p) metadata s
            ∙ ap (λ o. update_pool (new_entry p) o s.standard_pool) old))
          (update_pool-IsSound (new_entry p) s.standard_pool v))
