-- ===== src/Audit/Ring.antt =====
-- The places of a ring buffer, counted from its head.
use transeptor_bundler.Prelude.{
  ℕ, zero, suc, ◌+◌, ◌-◌, ◌%◌, ◌<◌, ◌≤◌, ◌≡◌, refl, false, List, [], ◌∷◌, ◌++◌, length, at, ltb,
  eqb, Option, none, some, arith, if◌then◌else◌, Bool-cases, inl, inr, ◌⊎◌,
}
use transeptor_bundler.Audit.{store}

-- (head + i) % capacity, for a head and an offset up to the capacity
abbrev pub place : ℕ → ℕ → ℕ → ℕ
place capacity head i = if ltb (head + i) capacity then head + i else head + i - capacity

pub next_place : (capacity x : ℕ) → x < capacity → (x + 1) % capacity ≡ place capacity x 1
next_place capacity x h = grind arith

pub place-place :
    (capacity head i : ℕ)
    → head < capacity
    → i < capacity
    → place capacity (place capacity head 1) i ≡ place capacity head (suc i)
place-place capacity head i h k = ground arith

pub place_next :
    (capacity head i : ℕ)
    → head < capacity
    → i < capacity
    → place capacity (place capacity head i) 1 ≡ place capacity head (suc i)
place_next capacity head i h k = ground arith

pub place_lt :
    (capacity head i : ℕ) → head < capacity → i ≤ capacity → place capacity head i < capacity
place_lt capacity head i h k = ground arith

pub place_apart :
    (capacity head i j : ℕ)
    → head < capacity
    → i < j
    → j < capacity
    → eqb (place capacity head j) (place capacity head i) ≡ false
place_apart capacity head i j h k l = ground arith

-- The events of a list stand in the buffer, from the head on.
abbrev pub Holds : {A : Type 0} → ℕ → (ℕ → Option A) → ℕ → List A → Type 0
Holds capacity buffer head events =
    (i : ℕ) → i < length events → buffer (place capacity head i) ≡ at i events

module _ {A : Type 0} where
  pub length-snoc : (xs : List A) (e : A) → length (xs ++ (e ∷ [])) ≡ suc (length xs)
  length-snoc [] e = refl
  length-snoc (x ∷ xs) e = omega (arith, length-snoc xs e)

  at-snoc :
      (i : ℕ) (xs : List A) (e : A)
      → i ≤ length xs
      → at i (xs ++ (e ∷ [])) ≡ (if eqb (length xs) i then some e else at i xs)
  at-snoc zero [] e h = refl
  at-snoc (suc i) [] e h = absurd (omega arith)
  at-snoc zero (x ∷ xs) e h = ground arith
  at-snoc (suc i) (x ∷ xs) e h = ground (arith, at-snoc i xs e)

module _ {A : Type 0} (capacity : ℕ) (buffer : ℕ → Option A) (head : ℕ)
    (below : head < capacity) where
  pub Holds-enqueue :
      (events : List A) (e : A)
      → length events < capacity
      → Holds capacity buffer head events
      → Holds capacity
          (store buffer (place capacity head (length events)) (some e))
          head
          (events ++ (e ∷ []))
  Holds-enqueue events e room h i lt =
      elim (eq_or_lt i (length events) (omega (arith, length-snoc events e))) [
        | inl last ↦ ground (arith, at-snoc i events e)
        | inr inside ↦
            ground (arith, at-snoc i events e, h i, place_apart capacity head i (length events))
      ]
    where
      eq_or_lt : (m n : ℕ) → m < suc n → (m ≡ n) ⊎ (m < n)
      eq_or_lt m n q = elim (Bool-cases (ltb m n)) [
        | inl l ↦ inr (ground arith)
        | inr g ↦ inl (ground arith)
      ]

  pub Holds-take :
      (events : List A) (e : A)
      → length (e ∷ events) ≤ capacity
      → Holds capacity buffer head (e ∷ events)
      → Holds capacity (store buffer head none) (place capacity head 1) events
  Holds-take events e room h i lt =
      rw (place-place capacity head i below (omega arith))
        (ground (arith, h (suc i), place_apart capacity head 0 (suc i)))
