-- ===== src/Prelude/Dict/Laws.antt =====
-- Laws of objects: distinct keys, what a merge holds, and how many keys there are.
use Prim.Native.Nat.{◌+◌}
use Prim.Native.String.{String}
use mathlib.Core.Path.{◌≡◌, refl}
use mathlib.Core.Logic.{inl, inr}
use mathlib.Core.Bool.{false}
use mathlib.Core.Option.{Option, none, some}
use mathlib.Core.List.{[], ◌∷◌}
use native.Mathlib.Omega.{arith}
use text.Mathlib.Text.{◌==◌}
use text.Mathlib.TextEquality.{eq_iff}
use transeptor_bundler.Prelude.Tests.{if◌then◌else◌, Bool-cases}
use transeptor_bundler.Prelude.Lists.{length}
use transeptor_bundler.Prelude.Dict.{Dict, get, put, remove, merge, get-put, get-remove}

module _ {ℓ} {V : Type ℓ} where
  -- Object keys are distinct.
  abbrev pub Distinct : Dict V → Type ℓ
  Distinct [] = Unit
  Distinct ((k, v) ∷ d) = (get k d ≡ none) × Distinct d

  get-put_absent :
      (k j : String) (v : V) (d : Dict V)
      → get j d ≡ none
      → (k == j) ≡ false
      → get j (put k v d) ≡ none
  get-put_absent k j v d h e = rw (get-put k j v d, e) h

  get-remove_absent : (k j : String) (d : Dict V) → get j d ≡ none → get j (remove k d) ≡ none
  get-remove_absent k j d h = rw (get-remove k j d) (ground arith)

  pub put-Distinct : (k : String) (v : V) (d : Dict V) → Distinct d → Distinct (put k v d)
  unfolding put
  put-Distinct k v [] h = (unfold get in refl, tt)
  put-Distinct k v ((j, w) ∷ d) (h, u) = elim (Bool-cases (j == k)) [
    | inl hit ↦ rw hit (h, u)
    | inr miss ↦
        rw miss
          (get-put_absent k j v d h (ground (arith, eq_iff k j, eq_iff j k)), put-Distinct k v d u)
  ]

  pub remove-Distinct : (k : String) (d : Dict V) → Distinct d → Distinct (remove k d)
  unfolding remove
  remove-Distinct k [] h = tt
  remove-Distinct k ((j, w) ∷ d) (h, u) = elim (Bool-cases (j == k)) [
    | inl hit ↦ rw hit (remove-Distinct k d u)
    | inr miss ↦ rw miss (get-remove_absent k j d h, remove-Distinct k d u)
  ]

  get-cons :
      (j k : String) (v : V) (d : Dict V)
      → get j ((k, v) ∷ d) ≡ (if k == j then some v else get j d)
  unfolding get
  get-cons j k v d = refl

  pub get-nil : (j : String) → get {V = V} j [] ≡ none
  unfolding get
  get-nil j = refl

  abbrev pub or_from : Option V → Option V → Option V
  or_from none o = o
  or_from (some v) o = some v

  -- { ...d, ...e } holds what e holds, and else what d holds.
  pub get-merge :
      (j : String) (d e : Dict V) → Distinct e → get j (merge d e) ≡ or_from (get j e) (get j d)
  unfolding merge
  get-merge j d [] h = rw (get-nil j)
  get-merge j d ((k, v) ∷ e) (h, u) =
      rw (get-merge j (put k v d) e u, get-put k j v d, get-cons j k v e)
        (ground (arith, eq_iff k j))

  -- The number of keys falls by one where the deleted key was there.
  remove_absent : (k : String) (d : Dict V) → get k d ≡ none → remove k d ≡ d
  unfolding remove get
  remove_absent k [] h = refl
  remove_absent k ((j, w) ∷ d) h = ground (arith, remove_absent k d)

  pub length-remove :
      (k : String) (d : Dict V)
      → Distinct d
      → length d ≡ (length (remove k d) + (elim (get k d) [ none ↦ 0 | some v ↦ 1 ]))
  unfolding remove get
  length-remove k [] h = refl
  length-remove k ((j, w) ∷ d) (h, u) =
      ground (arith, length-remove k d u, eq_iff j k, remove_absent k d)

  pub length-put :
      (k : String) (v : V) (d : Dict V)
      → length (put k v d) ≡ (length d + (elim (get k d) [ none ↦ 1 | some v ↦ 0 ]))
  unfolding put get
  length-put k v [] = refl
  length-put k v ((j, w) ∷ d) = ground (arith, length-put k v d)
