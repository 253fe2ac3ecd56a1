-- ===== src/EthApi/Found.antt =====
-- What is known of an operation that is found under a hash.
use transeptor_bundler.Prelude.{
  String, ◌≡◌, refl, sym, ap, ◌∙◌, Bool, true, ◌&&◌, ◌==◌, List, [], ◌∷◌, eqb, eqb_iff, eq_iff,
  Option, none, some, arith, Bool-cases, inl, inr,
}
use transeptor_bundler.Types.{UserOperation}
use transeptor_bundler.Outcome.{Either, left, right}
use transeptor_bundler.UserOps.Packing.{Hex, PackedUserOperation, PackError, unpack_user_op}
use transeptor_bundler.Validation.Input.{is_hex}
use transeptor_bundler.EthApi.Queries.{
  OperationEvent, QueryError, invalid_user_op_hash, unable_to_parse_transaction, not_unpacked,
  is_op_of, find_op, unpacked, from_ops, from_event, get_user_operation_by_hash,
}

module _ (hex : Hex) (entry_point_address : String) where
  find_op-some :
      (event : OperationEvent) (ops : List PackedUserOperation) (op : PackedUserOperation)
      → find_op event ops ≡ some op
      → (op.sender ≡ event.sender) × (op.nonce ≡ event.nonce)
  find_op-some event [] op h = cc
  find_op-some event (o ∷ ops) op h = elim (Bool-cases (is_op_of event o)) [
    | inl hit ↦
        let same : ◌≡◌ {A = Option PackedUserOperation} (some o) (some op) = rw hit at h in
        let same' : o ≡ op = cc in
        let (sender, nonce) = both_true (o.sender == event.sender) (eqb o.nonce event.nonce) hit in
        (
          ap (λ x. x.sender) (sym same') ∙ (eq_iff o.sender event.sender).0 sender,
          ap (λ x. x.nonce) (sym same') ∙ (eqb_iff o.nonce event.nonce).0 nonce,
        )
    | inr miss ↦ find_op-some event ops op (rw miss at h)
  ]
    where
      both_true : (a b : Bool) → a && b ≡ true → (a ≡ true) × (b ≡ true)
      both_true a b h = (ground arith, ground arith)

  unpacked-some :
      (found : Option PackedUserOperation) (op : UserOperation)
      → unpacked hex entry_point_address found ≡ right (some op)
      → (p : PackedUserOperation) × ((found ≡ some p) × (unpack_user_op hex p ≡ right op))
  unpacked-some none op h = cc
  unpacked-some (some p) op h = (p, (refl, by_unpacking (unpack_user_op hex p) h))
    where
      by_unpacking :
          (r : Either PackError UserOperation)
          → ◌≡◌ {A = Either QueryError (Option UserOperation)}
              (elim r [ left e ↦ left (not_unpacked e) | right u ↦ right (some u) ])
              (right (some op))
          → r ≡ right op
      by_unpacking (left e) k = cc
      by_unpacking (right u) k = cc

  from_ops-some :
      (event : OperationEvent) (ops : Option (List PackedUserOperation)) (op : UserOperation)
      → from_ops hex entry_point_address event ops ≡ right (some op)
      → (p : PackedUserOperation) × ((p.sender ≡ event.sender)
          × (p.nonce ≡ event.nonce)
          × (unpack_user_op hex p ≡ right op))
  from_ops-some event none op h = cc
  from_ops-some event (some ops) op h =
      let (p, (found, unpacking)) = unpacked-some (find_op event ops) op h in
      let (sender, nonce) = find_op-some event ops p found in (p, (sender, nonce, unpacking))

  from_event-some :
      (event : Option OperationEvent) (op : UserOperation)
      → from_event hex entry_point_address event ≡ right (some op)
      → (e : OperationEvent) × ((event ≡ some e)
          × ((e.tx_to == entry_point_address) ≡ true)
          × ((p : PackedUserOperation) × ((p.sender ≡ e.sender)
                × (p.nonce ≡ e.nonce)
                × (unpack_user_op hex p ≡ right op))))
  from_event-some none op h = cc
  from_event-some (some e) op h = elim (Bool-cases (e.tx_to == entry_point_address)) [
    | inl to ↦ (e, (refl, to, from_ops-some e e.tx_ops op (rw to at h)))
    | inr other ↦
        let refused : ◌≡◌ {A = Either QueryError (Option UserOperation)}
            (left unable_to_parse_transaction) (right (some op)) =
          rw other at h in
        cc
  ]

  -- An operation that is found under a hash was unpacked from a transaction to the entry point and has the
  -- sender and the nonce of the event of that hash.
  pub get_user_operation_by_hash_lem :
      (event_of : String → Option OperationEvent) (hash : String) (op : UserOperation)
      → get_user_operation_by_hash hex entry_point_address event_of hash ≡ right (some op)
      → (e : OperationEvent) × ((event_of hash ≡ some e)
          × ((e.tx_to == entry_point_address) ≡ true)
          × ((p : PackedUserOperation) × ((p.sender ≡ e.sender)
                × (p.nonce ≡ e.nonce)
                × (unpack_user_op hex p ≡ right op))))
  unfolding get_user_operation_by_hash
  get_user_operation_by_hash_lem event_of hash op h = elim (Bool-cases (is_hex hash)) [
    | inl hexadecimal ↦ from_event-some (event_of hash) op (rw hexadecimal at h)
    | inr other ↦
        let refused : ◌≡◌ {A = Either QueryError (Option UserOperation)} (left invalid_user_op_hash)
            (right (some op)) =
          rw other at h in
        cc
  ]
