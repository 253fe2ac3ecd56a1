-- ===== src/Examples/Queues.antt =====
-- Tests of the queue of the audit log.
use transeptor_bundler.Prelude.{
  ℕ, ◌+◌, ◌%◌, ◌≤◌, ◌≡◌, refl, true, false, List, [], ◌∷◌, ◌++◌, length, some, arith,
}
use transeptor_bundler.Audit.{
  QueueState, testing, init, acquire_slot, enqueue, take_event, finish_write, Reach, CalmReach,
  acquires, enqueues, takes, writes, start, later,
}
use transeptor_bundler.Audit.Ring.{Holds}
use transeptor_bundler.Audit.Outcomes.{in_hand}
use transeptor_bundler.Audit.Order.{CalmReach_lem, CalmReach-drained}
use transeptor_bundler.Audit.Race.{Reach-stranded}

-- The events 5 and 6 come in, the first is written, and the worker is writing the second.
abbrev half_way : QueueState ℕ
half_way = take_event 2 false (
    finish_write 2 false (some 5) true (
      take_event 2 false
        (enqueue 2 6 [] (acquire_slot 2 6 (enqueue 2 5 [] (acquire_slot 2 5 (init 2)))))))

unfoldable half_way_run : CalmReach 2 half_way
unfolding init acquire_slot enqueue take_event finish_write
half_way_run =
    later
      (later
        (later
          (later
            (later (later (later start (acquires 5 (omega arith)) tt) (enqueues 5 [] [] refl) tt)
              (acquires 6 (omega arith)) tt)
            (enqueues 6 [] [] refl) tt)
          (takes false refl (omega arith)) (omega arith))
        (writes false (some 5) true refl) tt)
      (takes false refl (omega arith)) (omega arith)

CalmReach_lem_example :
    (queued : List ℕ) × (half_way.accepted ≡ half_way.taken ++ queued)
    × (length queued + half_way.empty_slots ≤ 2)
    × Holds 2 half_way.event_buffer half_way.event_buffer_head queued
    × (half_way.taken ≡ (5 ∷ []) ++ in_hand half_way.worker)
    × (half_way.written ≡ 5 ∷ [])
unfolding half_way_run
CalmReach_lem_example = CalmReach_lem 2 (omega arith) half_way_run

-- One event is taken and its write fails.
abbrev emptied : QueueState ℕ
emptied =
    finish_write 2 false (some 5) false
      (take_event 2 false (enqueue 2 5 [] (acquire_slot 2 5 (init 2))))

emptied-CalmReach : CalmReach 2 emptied
unfolding init acquire_slot enqueue take_event finish_write
emptied-CalmReach =
    later
      (later (later (later start (acquires 5 (omega arith)) tt) (enqueues 5 [] [] refl) tt)
        (takes false refl (omega arith)) (omega arith))
      (writes false (some 5) false refl) tt

at_test : emptied.worker ≡ testing false
unfolding finish_write
at_test = refl

all_empty : emptied.empty_slots ≡ 2
unfolding init acquire_slot enqueue take_event finish_write
all_empty = refl

CalmReach-drained_example : (emptied.taken ≡ emptied.accepted) × (emptied.holding ≡ [])
CalmReach-drained_example =
    CalmReach-drained 2 false (omega arith) emptied-CalmReach at_test all_empty

Reach-stranded_example :
    (s : QueueState ℕ) × Reach 2 s
    × (s.accepted ≡ 7 ∷ [])
    × (s.taken ≡ [])
    × (s.holding ≡ [])
    × (s.worker ≡ testing false)
    × (s.empty_slots ≡ 2)
    × (s.event_buffer 0 ≡ some 7)
    × (s.event_buffer_head ≡ 1 % 2)
    × (s.event_buffer_tail ≡ s.event_buffer_head)
Reach-stranded_example = Reach-stranded 2 7 (omega arith)
