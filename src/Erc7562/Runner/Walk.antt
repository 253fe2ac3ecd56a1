-- ===== src/Erc7562/Runner/Walk.antt =====
-- The loop over the stack visits the calls of the trace as a recursion on it would.
use transeptor_bundler.Prelude.{
  ℕ, zero, suc, ◌+◌, ◌≤◌, ◌≡◌, refl, sym, ap, ◌∙◌, true, false, List, [], ◌∷◌, Option, some, arith,
  inl, inr, Bool-cases, if◌then◌else◌,
}
use transeptor_bundler.Outcome.{left, right, flat_map}
use transeptor_bundler.Erc7562.{
  Erc7562Call, made, Calls, nil, cons, frame_of, calls_of, RunnerState, Checked,
}
use transeptor_bundler.Erc7562.Runner.{
  ParserConfig, share, enter, child, push_calls, size, size_calls, and_then, is_self_call,
  check_call, run,
}
use transeptor_bundler.Erc7562.Runner.Rulebook.{check_call-Keeps}

abbrev with_call : Erc7562Call → RunnerState → RunnerState
with_call c s = record s { erc7562_call = c }

module _ (config : ParserConfig) where
  -- The reference: a call is checked, then its own calls, the last one first.
  unfoldable mutual
    pub walk : Erc7562Call → RunnerState → RunnerState → Checked
    walk (made frame cs) last s =
        if is_self_call config frame
        then right last
        else flat_map
            (check_call config (enter (share last (record s { erc7562_call = made frame cs }))))
            (λ updated. walk_calls cs updated updated)

    pub walk_calls : Calls → RunnerState → RunnerState → Checked
    walk_calls nil s last = right last
    walk_calls (cons c cs) s last =
        flat_map (walk_calls cs s last) (λ last'. walk c last' (child s c))

  and_then-flat_map :
      (checked : Checked) (f : RunnerState → Checked) (next : RunnerState → Option Checked)
      → and_then (flat_map checked f) next ≡ and_then checked (λ s. and_then (f s) next)
  and_then-flat_map (left e) f next = refl
  and_then-flat_map (right s) f next = refl

  and_then_ext :
      (checked : Checked) (f g : RunnerState → Option Checked)
      → ((s : RunnerState) → f s ≡ g s)
      → and_then checked f ≡ and_then checked g
  and_then_ext (left e) f g h = refl
  and_then_ext (right s) f g h = h s

  same_calls :
      (fuel : ℕ) (s : RunnerState) (stack : List RunnerState) (checked : Checked)
      → check_call config s ≡ checked
      → and_then checked (λ updated.
        run config fuel (push_calls (calls_of updated.erc7562_call) updated stack) updated)
        ≡ and_then checked (λ updated.
          run config fuel (push_calls (calls_of s.erc7562_call) updated stack) updated)
  same_calls fuel s stack (left e) q = refl
  same_calls fuel s stack (right t) q =
      ap (λ x. run config fuel (push_calls (calls_of x) t stack) t)
        (check_call-Keeps config s t q).0

  -- The call at the top of the stack.
  unroll :
      (fuel : ℕ) (c : Erc7562Call) (s last : RunnerState) (stack : List RunnerState)
      → is_self_call config (frame_of c) ≡ false
      → run config (suc fuel) (with_call c s ∷ stack) last
        ≡ and_then
            (check_call config (enter (share last (with_call c s))))
            (λ updated. run config fuel (push_calls (calls_of c) updated stack) updated)
  unfolding run
  unroll fuel c s last stack h =
      rw h (same_calls fuel (enter (share last (with_call c s))) stack _ refl)

  -- From `bound` on, the fuel makes no difference to what follows the stack.
  abbrev Settles : ℕ → List RunnerState → (RunnerState → Option Checked) → Type 0
  Settles bound stack next =
      (fuel : ℕ) (last : RunnerState) → bound ≤ fuel → run config fuel stack last ≡ next last

  by_fuel :
      (bound : ℕ) (s : RunnerState) (stack : List RunnerState) (last : RunnerState)
      (value : Option Checked)
      → ((fuel : ℕ) → bound ≤ fuel → run config (suc fuel) (s ∷ stack) last ≡ value)
      → (fuel : ℕ) → suc bound ≤ fuel
      → run config fuel (s ∷ stack) last ≡ value
  by_fuel bound s stack last value h zero lt = absurd (omega arith)
  by_fuel bound s stack last value h (suc fuel) lt = h fuel (omega arith)

  skip :
      (fuel : ℕ) (c : Erc7562Call) (s last : RunnerState) (stack : List RunnerState)
      → is_self_call config (frame_of c) ≡ true
      → run config (suc fuel) (with_call c s ∷ stack) last ≡ run config fuel stack last
  unfolding run
  skip fuel c s last stack h = rw h

  mutual
    unfolding walk size push_calls

    run-walk :
        (c : Erc7562Call) (s : RunnerState) (bound : ℕ) (stack : List RunnerState)
        (next : RunnerState → Option Checked)
        → Settles bound stack next
        → Settles (size c + bound) (with_call c s ∷ stack) (λ last. and_then (walk c last s) next)
    run-walk (made frame cs) s bound stack next h fuel last lt =
        by_fuel (size_calls cs + bound) _ stack last _
          (λ m le. elim (Bool-cases (is_self_call config frame)) [
            | inl self ↦ skip m (made frame cs) s last stack self ∙ h m last (omega arith) ∙ rw self
            | inr other ↦
                unroll m (made frame cs) s last stack other
                ∙ and_then_ext _ _ _
                    (λ updated. run-walk_calls cs updated bound stack next h m updated le)
                ∙ rw other
                    (sym (and_then-flat_map _ (λ updated. walk_calls cs updated updated) next))
          ])
          fuel (omega arith)

    run-walk_calls :
        (cs : Calls) (s : RunnerState) (bound : ℕ) (stack : List RunnerState)
        (next : RunnerState → Option Checked)
        → Settles bound stack next
        → Settles
            (size_calls cs + bound)
            (push_calls cs s stack)
            (λ last. and_then (walk_calls cs s last) next)
    run-walk_calls nil s bound stack next h fuel last le = h fuel last (omega arith)
    run-walk_calls (cons c cs) s bound stack next h fuel last le =
        run-walk_calls cs s (size c + bound) (child s c ∷ stack)
          (λ last'. and_then (walk c last' (child s c)) next)
          (run-walk c (child s c) bound stack next h) fuel last (omega arith)
        ∙ sym (and_then-flat_map (walk_calls cs s last) (λ last'. walk c last' (child s c)) next)

  run-nil : Settles 0 [] (λ last. some (right last))
  unfolding run
  run-nil zero last le = refl
  run-nil (suc fuel) last le = refl

  and_then_end : (checked : Checked) → and_then checked (λ s. some (right s)) ≡ some checked
  and_then_end (left e) = refl
  and_then_end (right s) = refl

  -- The loop ends: with as much fuel as the trace has calls, or more, it gives what the recursion on
  -- the trace gives, in which the calls of a call are checked from the last one to the first.
  pub runner-walk :
      (s : RunnerState) (fuel : ℕ)
      → size s.erc7562_call ≤ fuel
      → run config fuel (s ∷ []) s ≡ some (walk s.erc7562_call s s)
  runner-walk s fuel le =
      run-walk s.erc7562_call s 0 [] (λ last. some (right last)) run-nil fuel s (omega arith)
      ∙ and_then_end (walk s.erc7562_call s s)
