-- ===== src/Audit/Order.antt =====
-- In a calm run the queue is a bounded queue: the events leave it in the order in which they came.
use mathlib.Core.List.{append-nil, map}
use transeptor_bundler.Prelude.{
  ℕ, ◌+◌, ◌<◌, ◌≤◌, ◌≡◌, refl, sym, ap, ◌∙◌, Bool, List, [], ◌∷◌, ◌++◌, length, arith,
}
use transeptor_bundler.Audit.{testing, QueueState, CalmReach}
use transeptor_bundler.Audit.Ring.{Holds}
use transeptor_bundler.Audit.Invariant.{busy, CalmReach-Inv}
use transeptor_bundler.Audit.Outcomes.{in_hand, successes, outcomes, CalmReach-IsSettled}

module _ {Event : Type 0} (capacity : ℕ) where
  -- In a calm run the ring buffer is a bounded queue: the events that came into it are those that were
  -- taken, followed by those that stand in the buffer from its head on, of which there are at most as
  -- many as its capacity. The events that were taken are, in order, those of the writes that ended in
  -- the run, followed by the one that the worker is writing; and the log holds, in the same order, those
  -- whose write succeeded, and no other.
  pub CalmReach_lem :
      {s : QueueState Event}
      → 0 < capacity
      → (r : CalmReach capacity s)
      → (queued : List Event) × (s.accepted ≡ s.taken ++ queued)
        × (length queued + s.empty_slots ≤ capacity)
        × Holds capacity s.event_buffer s.event_buffer_head queued
        × (s.taken ≡ map (λ o. o.0) (outcomes capacity r) ++ in_hand s.worker)
        × (s.written ≡ successes (outcomes capacity r))
  CalmReach_lem h r =
      let v = CalmReach-Inv capacity h r in
      let (out, log) = CalmReach-IsSettled capacity r in
      (v.queued, v.order, omega (arith, v.slots), v.held, out, log)

  no_items : (xs : List Event) → length xs ≡ 0 → xs ≡ []
  no_items [] h = refl
  no_items (x ∷ xs) h = absurd (omega arith)

  -- In a calm run nothing is left when the worker ends a round of draining: every event that came into
  -- the buffer was taken out, and no producer waits with a slot.
  pub CalmReach-drained :
      {s : QueueState Event} (last : Bool)
      → 0 < capacity
      → CalmReach capacity s
      → s.worker ≡ testing last
      → s.empty_slots ≡ capacity
      → (s.taken ≡ s.accepted) × (s.holding ≡ [])
  CalmReach-drained {s} last h r test full =
      let v = CalmReach-Inv capacity h r in
      let none_queued = no_items v.queued (omega (arith, v.slots, ap busy test)) in
      (
        sym (v.order ∙ ap (λ q. s.taken ++ q) none_queued ∙ append-nil s.taken),
        no_items s.holding (omega (arith, v.slots, ap busy test)),
      )
