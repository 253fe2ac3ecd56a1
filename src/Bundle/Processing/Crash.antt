-- ===== src/Bundle/Processing/Crash.antt =====
-- What a crash of handleOps leaves: the entity to blame is banned, and its operations are gone.
use transeptor_bundler.Prelude.{
  String, ◌≡◌, ◌≢◌, sym, ap, ◌∙◌, subst, false, ◌==◌, eq_iff, eq_refl, includes, Option, none, some,
  arith, inl, inr, Bool-cases, if◌then◌else◌,
}
use transeptor_bundler.Prelude.Dict.{get}
use transeptor_bundler.Prelude.Text.{to_lower_case}
use transeptor_bundler.Types.{UserOperation, MempoolEntry, ok, banned}
use transeptor_bundler.State.{State}
use transeptor_bundler.Reputation.{get_status, decrement, update_seen_status}
use transeptor_bundler.Reputation.Status.{get_status-crashed_handle_ops}
use transeptor_bundler.Reputation.Updates.{
  pool-update_seen_status, white_list-update_seen_status, pool-crashed_handle_ops,
}
use transeptor_bundler.Mempool.{find_by_sender_nonce}
use transeptor_bundler.Mempool.Slots.{IsSound}
use transeptor_bundler.Mempool.Manager.{
  by_op, remove_user_op, remove_user_ops_for_banned_addr, mentions, find_by_hash,
}
use transeptor_bundler.Mempool.Manager.Removing.{
  find_by_sender_nonce-remove_user_op, find_by_hash_before, get_status-remove_user_op,
}
use transeptor_bundler.Mempool.Manager.Banning.{
  find_by_hash-remove_user_ops_for_banned_addr, remove_user_ops_for_banned_addr-IsSound,
  unless_mentions, white_list-remove_user_ops_for_banned_addr,
}
use transeptor_bundler.Bundle.Processing.{ban_entity, after_crash}

module _ (address : String) (op : UserOperation) (s : State) where
  -- The store in which the operations of the entity are dropped: all sightings are taken back.
  abbrev unseen : State
  unseen =
      update_seen_status op.factory decrement (
        update_seen_status op.paymaster decrement (update_seen_status (some op.sender) decrement s))

  pool-unseen : unseen.standard_pool ≡ s.standard_pool
  pool-unseen =
      (pool-update_seen_status op.factory decrement _).0
      ∙ (pool-update_seen_status op.paymaster decrement _).0
      ∙ (pool-update_seen_status (some op.sender) decrement s).0

  white_list-unseen : unseen.white_list ≡ s.white_list
  white_list-unseen =
      white_list-update_seen_status op.factory decrement _
      ∙ white_list-update_seen_status op.paymaster decrement _
      ∙ white_list-update_seen_status (some op.sender) decrement s

  get_status-ban_entity :
      get_status (some address) (ban_entity address op s)
      ≡ (if includes s.white_list (to_lower_case address) then ok else banned)
  unfolding ban_entity
  get_status-ban_entity =
      get_status-crashed_handle_ops address address (remove_user_ops_for_banned_addr address unseen)
      ∙ rw (
        eq_refl (to_lower_case address),
        white_list-remove_user_ops_for_banned_addr address unseen,
        white_list-unseen,
      )

  pool-ban_entity :
      (ban_entity address op s).standard_pool
      ≡ (remove_user_ops_for_banned_addr address unseen).standard_pool
  unfolding ban_entity
  pool-ban_entity = pool-crashed_handle_ops (some address) _

  pub ban_entity-IsSound : IsSound s.standard_pool → IsSound (ban_entity address op s).standard_pool
  ban_entity-IsSound v =
      subst IsSound (sym pool-ban_entity)
        (remove_user_ops_for_banned_addr-IsSound address unseen (subst IsSound (sym pool-unseen) v))

  not_mentioned :
      (o : Option MempoolEntry) (e : MempoolEntry)
      → unless_mentions address o ≡ some e
      → mentions address e ≡ false
  not_mentioned none e h = cc
  not_mentioned (some d) e h = elim (Bool-cases (mentions address d)) [
    | inl hit ↦ absurd (gone (rw hit at h))
    | inr miss ↦ subst (λ x. mentions address x ≡ false) (same (rw miss at h)) miss
  ]
    where
      gone : none ≡ some e → ⊥
      gone q = cc

      same : some d ≡ some e → d ≡ e
      same q = cc

  mentions-ban_entity :
      (k : String) (e : MempoolEntry)
      → IsSound s.standard_pool
      → find_by_hash k (ban_entity address op s) ≡ some e
      → mentions address e ≡ false
  unfolding find_by_hash
  mentions-ban_entity k e v h = not_mentioned (find_by_hash k unseen) e (
      sym (
        find_by_hash-remove_user_ops_for_banned_addr address unseen k
          (subst IsSound (sym pool-unseen) v))
      ∙ sym (ap (get k) pool-ban_entity)
      ∙ h)

  crashed :
      address ≢ ""
      → after_crash (some address) op s ≡ (remove_user_op (by_op op) (ban_entity address op s)).1
  unfolding after_crash
  crashed named =
      ap (λ b. (remove_user_op (by_op op) (if b then s else ban_entity address op s)).1)
        (ne_false named)
    where
      ne_false : address ≢ "" → (address == "") ≡ false
      ne_false h = ground (arith, eq_iff address "")

  -- The entity is dealt with: its status, its operations, and the slot of the failed operation.
  abbrev Settled : State → Type 0
  Settled t =
      (get_status (some address) t
        ≡ (if includes s.white_list (to_lower_case address) then ok else banned))
      × ((k : String) (e : MempoolEntry) → find_by_hash k t ≡ some e → mentions address e ≡ false)
      × (find_by_sender_nonce op.sender op.nonce t.standard_pool ≡ none)

  -- After a crash of handleOps that an entity is to blame for, the entity is banned unless it is on the
  -- white list, no operation of the pool has it as its sender, paymaster or factory, spelled in the
  -- same way, and the slot of the operation that failed is free; the pool was sound before.
  pub after_crash_lem :
      address ≢ ""
      → IsSound s.standard_pool
      → (get_status (some address) (after_crash (some address) op s)
          ≡ (if includes s.white_list (to_lower_case address) then ok else banned))
        × ((k : String) (e : MempoolEntry)
            → find_by_hash k (after_crash (some address) op s) ≡ some e
            → mentions address e ≡ false)
        × (find_by_sender_nonce op.sender op.nonce (after_crash (some address) op s).standard_pool
            ≡ none)
  after_crash_lem named v = subst Settled (sym (crashed named)) (
    get_status-remove_user_op (by_op op) (some address) (ban_entity address op s)
        ∙ get_status-ban_entity,
    (λ k e h.
        mentions-ban_entity k e v (find_by_hash_before (by_op op) (ban_entity address op s) k e h)),
    find_by_sender_nonce-remove_user_op op (ban_entity address op s) (ban_entity-IsSound v),
  )
