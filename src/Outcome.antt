-- ===== src/Outcome.antt =====
-- monad/either.ts, and what a call gives that may throw an `RpcError`.
use transeptor_bundler.Prelude.{Bool, true, false, if◌then◌else◌}
use transeptor_bundler.Errors.{RpcError}

pub data Either {ℓ κ} (L : Type ℓ) (R : Type κ) : Type (ℓ ⊔ κ) where
  left : L → Either L R
  right : R → Either L R

module _ {ℓ κ} {L : Type ℓ} {R : Type κ} where
  abbrev pub is_left : Either L R → Bool
  is_left (left e) = true
  is_left (right r) = false

  abbrev pub is_right : Either L R → Bool
  is_right (left e) = false
  is_right (right r) = true

  abbrev pub get_or_else : Either L R → R → R
  get_or_else (left e) d = d
  get_or_else (right r) d = r

module _ {ℓ κ μ} {L : Type ℓ} {R : Type κ} {U : Type μ} where
  abbrev pub map : Either L R → (R → U) → Either L U
  map (left e) f = left e
  map (right r) f = right (f r)

  abbrev pub flat_map : Either L R → (R → Either L U) → Either L U
  flat_map (left e) f = left e
  flat_map (right r) f = f r

  abbrev pub fold : Either L R → (L → U) → (R → U) → U
  fold (left e) on_left on_right = on_left e
  fold (right r) on_left on_right = on_right r

-- A call that returns or throws.
pub data Result {ℓ} (A : Type ℓ) : Type ℓ where
  returned : A → Result A
  thrown : RpcError → Result A

-- `await` of a call that may throw: what follows does not run if it does.
module _ {ℓ κ} {A : Type ℓ} {B : Type κ} where
  infixl 5 ◌>>=◌
  abbrev pub ◌>>=◌ : Result A → (A → Result B) → Result B
  thrown error >>= next = thrown error
  returned value >>= next = next value

infixl 5 ◌>>◌
abbrev pub ◌>>◌ {ℓ} : {B : Type ℓ} → Result (Unit {0}) → Result B → Result B
first >> second = first >>= λ _. second

-- utils/rpc.utils.ts
abbrev pub require_cond : Bool → RpcError → Result (Unit {0})
require_cond cond e = if cond then returned tt else thrown e
