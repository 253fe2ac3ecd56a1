-- ===== src/EthApi/Sending.antt =====
-- What a client is promised when `sendUserOperation` answers with a hash, and when it does not.
use transeptor_bundler.Prelude.{
  ℕ, String, ◌≡◌, refl, sym, ap, ◌∙◌, subst, false, eq_refl, [], ◌∷◌, Option, none, some,
}
use transeptor_bundler.Types.{UserOperation, ValidationResult, ValidateUserOpResult}
use transeptor_bundler.Errors.{RpcError}
use transeptor_bundler.Outcome.{Either, left, right, Result, returned, thrown}
use transeptor_bundler.State.{State}
use transeptor_bundler.Erc7562.{Erc7562Call}
use transeptor_bundler.Erc7562.Runner.Safety.{EveryCall, IsHarmless}
use transeptor_bundler.Mempool.{MempoolEntryWithMetadata}
use transeptor_bundler.Mempool.Manager.{
  ManagerConfig, RelayUserOpParam, new_entry, conclude, add_user_op, find_by_hash,
}
use transeptor_bundler.Mempool.Manager.Adding.{find_by_hash-add_user_op}
use transeptor_bundler.Validation.{Validated, validate_user_op}
use transeptor_bundler.Validation.Accepted.{IsCurrent, validate_user_op_safe}
use transeptor_bundler.Validation.Input.{Object, validate_input_parameters}
use transeptor_bundler.Validation.Input.Meaning.{
  IsSupported, OperationFits, validate_input_parameters_iff,
}
use transeptor_bundler.EthApi.{
  EthApiConfig, user_op_received, user_op_included_in_mempool, Sent, relay_param, relayed,
  all_checks, params, after_validation, after_hash, after_input, send_user_operation,
}

right_inj {ℓ κ} :
    {A : Type ℓ} {B : Type κ} {x y : B} → ◌≡◌ {A = Either A B} (right x) (right y) → x ≡ y
right_inj h = cc

conclude-right :
    (config : ManagerConfig) (p : RelayUserOpParam)
    (r : Result (Either RpcError MempoolEntryWithMetadata)) (s : State) (h : String)
    → (conclude config p r s).0 ≡ returned (right h)
    → p.user_op_hash ≡ h
unfolding conclude
conclude-right config p (thrown e) s h q = cc
conclude-right config p (returned (left e)) s h q = cc
conclude-right config p (returned (right (entry, metadata))) s h q = cc

-- The hash that `addUserOp` answers with is that of the operation.
add_user_op-right :
    (config : ManagerConfig) (p : RelayUserOpParam) (s : State) (h : String)
    → (add_user_op config p s).0 ≡ returned (right h)
    → p.user_op_hash ≡ h
unfolding add_user_op
add_user_op-right config p s h q = conclude-right config p _ s h q

-- The outcomes of the relay: the pool has taken the operation in, or it is as it was.
abbrev HasHash : Sent → String → Type 0
HasHash sent h = sent.answer ≡ returned (some (right h))

relayed-HasHash :
    (hash h : String) (r : Result (Either RpcError String) × State)
    → HasHash (relayed hash r) h
    → (r.0 ≡ returned (right h))
      × ((relayed hash r).store ≡ r.1)
      × ((relayed hash r).events ≡ user_op_received ∷ user_op_included_in_mempool hash ∷ [])
relayed-HasHash hash h (thrown e, s) q = cc
relayed-HasHash hash h (returned (left e), s) q = cc
relayed-HasHash hash h (returned (right x), s) q = (cc, refl, refl)

module _ (config : EthApiConfig) (now : ℕ) where
  -- What was checked of an object that is in the pool, under a hash, in a store.
  abbrev pub IsTakenIn : Object → String → State → Type 0
  IsTakenIn object h store =
      (res : ValidateUserOpResult) × ((config.get_user_op_hash (config.read_user_op object)
          ≡ right h)
        × (validate_user_op config.node config.is_unsafe_mode now (config.read_user_op object) none
            ≡ returned (some (right res)))
        × (find_by_hash h store
            ≡ some (new_entry (relay_param (config.read_user_op object) h res))))

  abbrev Trail : Sent → String → Type 0
  Trail sent h = sent.events ≡ user_op_received ∷ user_op_included_in_mempool h ∷ []

  added :
      (op : UserOperation) (hash h : String) (res : ValidateUserOpResult) (s : State)
      → HasHash (relayed hash (add_user_op config.manager (relay_param op hash res) s)) h
      → (hash ≡ h)
        × (find_by_hash h
              (relayed hash (add_user_op config.manager (relay_param op hash res) s)).store
            ≡ some (new_entry (relay_param op h res)))
        × Trail (relayed hash (add_user_op config.manager (relay_param op hash res) s)) h
  added op hash h res s q =
      let p = relay_param op hash res in
      let (answer, store, events) = relayed-HasHash hash h (add_user_op config.manager p s) q in
      let same = add_user_op-right config.manager p s h answer in
      let answer' : (add_user_op config.manager p s).0 ≡ returned (right p.user_op_hash) =
        answer ∙ ap (λ x. returned (right x)) (sym same) in
      let found : find_by_hash hash (add_user_op config.manager p s).1 ≡ some (new_entry p) =
        rw (eq_refl hash) at (find_by_hash-add_user_op config.manager p s hash answer') in
      (
        same,
        ap (find_by_hash h) store
            ∙ subst
                (λ x.
                  find_by_hash x (add_user_op config.manager p s).1
                  ≡ some (new_entry (relay_param op x res)))
                same found,
        events ∙ ap (λ x. user_op_received ∷ user_op_included_in_mempool x ∷ []) same,
      )

  after_validation-taken :
      (object : Object) (hash h : String) (v : Result (Option Validated)) (s : State)
      → config.get_user_op_hash (config.read_user_op object) ≡ right hash
      → validate_user_op config.node config.is_unsafe_mode now (config.read_user_op object) none ≡ v
      → HasHash (after_validation config now (config.read_user_op object) hash v s) h
      → IsTakenIn object h (after_validation config now (config.read_user_op object) hash v s).store
        × Trail (after_validation config now (config.read_user_op object) hash v s) h
  after_validation-taken object hash h (thrown e) s q v h' = cc
  after_validation-taken object hash h (returned none) s q v h' = cc
  after_validation-taken object hash h (returned (some (left e))) s q v h' = cc
  after_validation-taken object hash h (returned (some (right res))) s q v h' =
      let (same, found, trail) = added (config.read_user_op object) hash h res s h' in
      ((res, (q ∙ ap right same, v, found)), trail)

  after_hash-taken :
      (object : Object) (h : String) (r : Either String String) (s : State)
      → config.get_user_op_hash (config.read_user_op object) ≡ r
      → HasHash (after_hash config now (config.read_user_op object) r s) h
      → IsTakenIn object h (after_hash config now (config.read_user_op object) r s).store
        × Trail (after_hash config now (config.read_user_op object) r s) h
  after_hash-taken object h (left message) s q h' = cc
  after_hash-taken object h (right hash) s q h' = after_validation-taken object hash h _ s q refl h'

  after_input-taken :
      (r : Result (Either RpcError Object)) (s : State) (h : String)
      → HasHash (after_input config now r s) h
      → (object : Object) × ((r ≡ returned (right object))
          × IsTakenIn object h (after_input config now r s).store
          × Trail (after_input config now r s) h)
  after_input-taken (thrown e) s h h' = cc
  after_input-taken (returned (left e)) s h h' = cc
  after_input-taken (returned (right object)) s h h' =
      let (taken, trail) = after_hash-taken object h _ s refl h' in (object, (refl, taken, trail))

  -- Outside the unsafe mode an operation whose client gets a hash has input that fits, and the validation
  -- gave a result for it. That result is valid now, the simulation made only harmless calls (calls of
  -- the entry point to itself, with the calls below them, aside), and the operation stands in the pool
  -- under that hash, pending, with what that result says. The trail says that it was received and taken
  -- in.
  pub send_user_operation_safe :
      (input : Option Object) (entry_point : Option String) (s : State) (h : String)
      → config.is_unsafe_mode ≡ false
      → (send_user_operation config now input entry_point s).answer ≡ returned (some (right h))
      → (object : Object) × ((input ≡ some object)
          × IsSupported (params config now input entry_point)
          × OperationFits config.validate_pre_verification_gas all_checks object
          × ((res : ValidateUserOpResult) × ((validate_user_op config.node config.is_unsafe_mode now
                    (config.read_user_op object)
                    none
                  ≡ returned (some (right res)))
                × IsCurrent now res
                × ((result : ValidationResult) × ((c : Erc7562Call)
                      × (config.node.full_simulate_validation (config.read_user_op object)
                          ≡ right (result, c))
                      × EveryCall config.node.parser
                          (IsHarmless config.node.parser (config.read_user_op object))
                          c))
                × (find_by_hash h (send_user_operation config now input entry_point s).store
                    ≡ some (new_entry (relay_param (config.read_user_op object) h res)))))
          × Trail (send_user_operation config now input entry_point s) h)
  unfolding send_user_operation
  send_user_operation_safe input entry_point s h safe answer =
      let p = params config now input entry_point in
      let (object, (fits, taken, trail)) =
        after_input-taken
          (validate_input_parameters config.validate_pre_verification_gas all_checks p) s h
          answer in
      let (supported, given, good) =
        (validate_input_parameters_iff config.validate_pre_verification_gas all_checks p object).0
          fits in
      let (res, (hashed, valid, found)) = taken in
      let op = config.read_user_op object in
      let valid' =
        subst
          (λ unsafe. validate_user_op config.node unsafe now op none ≡ returned (some (right res)))
          safe valid in
      let (current, unchanged, checked) =
        validate_user_op_safe config.node now op none res valid' in
      let (result, (c, sim, harmless, addresses)) = checked in
      (
        object,
        (
          given,
          supported,
          good,
          (res, (valid, current, (result, (c, sim, harmless)), found)),
          trail,
        ),
      )
