-- ===== src/Audit/Race.antt =====
-- A run in which the worker is faster than a producer that has a slot and waits for the lock.
use transeptor_bundler.Prelude.{ℕ, ◌%◌, ◌<◌, ◌≡◌, refl, true, false, [], ◌∷◌, none, some, arith}
use transeptor_bundler.Audit.{
  testing, QueueState, init, acquire_slot, enqueue, take_event, finish_write, acquires, enqueues,
  takes, writes, Reach, start, later,
}

module _ {Event : Type 0} (capacity : ℕ) (e : Event) (room : 0 < capacity) where
  -- The producer has a slot, the worker takes from the empty buffer and gives the slot back, then the
  -- producer writes.
  abbrev granted : QueueState Event
  granted = acquire_slot capacity e (init capacity)

  abbrev overtaken : QueueState Event
  overtaken = finish_write capacity false none true (take_event capacity false granted)

  abbrev passed_by : QueueState Event
  passed_by = enqueue capacity e [] overtaken

  passed_by-Reach : Reach capacity passed_by
  unfolding init acquire_slot take_event finish_write enqueue
  passed_by-Reach =
      later
        (later (later (later start (acquires e room)) (takes false refl (omega arith)))
          (writes false none true refl))
        (enqueues e [] [] refl)

  -- In a run that is not calm an event can be passed over: for every capacity there is one after which an
  -- event stands in the first place of the buffer while the head and the tail are both at the place
  -- after it, no producer waits, all slots count as empty, so the round of draining ends, and the event
  -- was not taken.
  pub Reach-stranded :
      (s : QueueState Event) × Reach capacity s
      × (s.accepted ≡ e ∷ [])
      × (s.taken ≡ [])
      × (s.holding ≡ [])
      × (s.worker ≡ testing false)
      × (s.empty_slots ≡ capacity)
      × (s.event_buffer 0 ≡ some e)
      × (s.event_buffer_head ≡ 1 % capacity)
      × (s.event_buffer_tail ≡ s.event_buffer_head)
  unfolding init acquire_slot take_event finish_write enqueue
  Reach-stranded =
      (passed_by, passed_by-Reach, refl, refl, refl, refl, omega arith, refl, refl, refl)
