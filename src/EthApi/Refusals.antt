-- ===== src/EthApi/Refusals.antt =====
-- What `sendUserOperation` leaves behind when it does not answer with a hash.
use transeptor_bundler.Prelude.{
  ℕ, String, ◌≡◌, ◌≢◌, ◌⊎◌, inl, inr, refl, [], ◌∷◌, Option, none, some,
}
use transeptor_bundler.Types.{UserOperation}
use transeptor_bundler.Errors.{RpcError}
use transeptor_bundler.Outcome.{Either, left, right, Result, returned, thrown}
use transeptor_bundler.State.{State}
use transeptor_bundler.Mempool.Manager.{add_user_op}
use transeptor_bundler.Mempool.Manager.Adding.{add_user_op_refused}
use transeptor_bundler.Validation.{Validated, validate_user_op}
use transeptor_bundler.Validation.Accepted.{validate_user_op_total}
use transeptor_bundler.Validation.Input.{Object, validate_input_parameters}
use transeptor_bundler.EthApi.{
  EthApiConfig, user_op_received, user_op_rejected, SendError, Sent, relay_param, relayed,
  all_checks, params, after_validation, after_hash, after_input, send_user_operation,
}

abbrev NoHash : Sent → Type 0
NoHash sent = (h : String) → sent.answer ≢ returned (some (right h))

-- The store is as it was, and the trail has a rejection, unless an exception cut it off.
abbrev pub IsRefused : Sent → State → Type 0
IsRefused sent s =
    (sent.store ≡ s)
    × (((e : RpcError) × ((sent.answer ≡ thrown e) × (sent.events ≡ user_op_received ∷ [])))
        ⊎ ((e : SendError) × ((hash : String) × (sent.answer ≡ returned (some (left e)))
              × (sent.events ≡ user_op_received ∷ user_op_rejected hash ∷ []))))

relayed-IsRefused :
    (hash : String) (r : Result (Either RpcError String) × State) (s : State)
    → (r.0 ≢ returned (right hash) → r.1 ≡ s)
    → NoHash (relayed hash r)
    → IsRefused (relayed hash r) s
relayed-IsRefused hash (thrown e, t) s same nothing = (same (λ q. cc), inl (e, (refl, refl)))
relayed-IsRefused hash (returned (left e), t) s same nothing =
    (same (λ q. cc), inr (_, (hash, refl, refl)))
relayed-IsRefused hash (returned (right h), t) s same nothing = absurd (nothing h refl)

module _ (config : EthApiConfig) (now : ℕ) where
  after_validation-IsRefused :
      (op : UserOperation) (hash : String) (v : Result (Option Validated)) (s : State)
      → v ≢ returned none
      → NoHash (after_validation config now op hash v s)
      → IsRefused (after_validation config now op hash v s) s
  after_validation-IsRefused op hash (thrown e) s total nothing = (refl, inl (e, (refl, refl)))
  after_validation-IsRefused op hash (returned none) s total nothing = absurd (total refl)
  after_validation-IsRefused op hash (returned (some (left e))) s total nothing =
      (refl, inr (_, (hash, refl, refl)))
  after_validation-IsRefused op hash (returned (some (right res))) s total nothing =
      relayed-IsRefused hash (add_user_op config.manager (relay_param op hash res) s) s
        (add_user_op_refused config.manager (relay_param op hash res) s) nothing

  after_hash-IsRefused :
      (op : UserOperation) (r : Either String String) (s : State)
      → NoHash (after_hash config now op r s)
      → IsRefused (after_hash config now op r s) s
  after_hash-IsRefused op (left message) s nothing = (refl, inr (_, ("0x0", refl, refl)))
  after_hash-IsRefused op (right hash) s nothing =
      after_validation-IsRefused op hash
        (validate_user_op config.node config.is_unsafe_mode now op none) s
        (validate_user_op_total config.node now op config.is_unsafe_mode none) nothing

  after_input-IsRefused :
      (r : Result (Either RpcError Object)) (s : State)
      → NoHash (after_input config now r s)
      → IsRefused (after_input config now r s) s
  after_input-IsRefused (thrown e) s nothing = (refl, inl (e, (refl, refl)))
  after_input-IsRefused (returned (left e)) s nothing = (refl, inr (_, ("0x0", refl, refl)))
  after_input-IsRefused (returned (right object)) s nothing =
      after_hash-IsRefused (config.read_user_op object) _ s nothing

  -- A sending that does not answer with a hash leaves the store as it was. It answers with an error, which
  -- the trail has as a rejection, or it ends in an exception, and then the trail only has that the
  -- operation was received.
  pub send_user_operation-IsRefused :
      (input : Option Object) (entry_point : Option String) (s : State)
      → ((h : String)
          → (send_user_operation config now input entry_point s).answer ≢ returned (some (right h)))
      → IsRefused (send_user_operation config now input entry_point s) s
  unfolding send_user_operation
  send_user_operation-IsRefused input entry_point s nothing =
      after_input-IsRefused
        (validate_input_parameters config.validate_pre_verification_gas all_checks
          (params config now input entry_point))
        s nothing
