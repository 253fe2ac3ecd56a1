-- ===== src/Audit.antt =====
-- logger/audit/audit-queue.ts: a ring buffer between the producers of events and one worker that writes
-- them to the log. A producer waits for an empty slot (a semaphore), then for the lock, under which it
-- writes into the buffer; the worker takes an event under the lock, writes it to the log and gives the
-- slot back. What runs under the lock does not wait, so it is one step; between the steps of one task
-- any other task may run.
pub mod Ring
pub mod Invariant
pub mod Outcomes
pub mod Order
pub mod Race
use transeptor_bundler.Prelude.{
  ℕ, ◌+◌, ◌-◌, ◌%◌, ◌<◌, ◌≡◌, Bool, true, false, List, [], ◌∷◌, ◌++◌, length, eqb, Option, none,
  some, if◌then◌else◌,
}

module _ (Event : Type 0) where
  -- Where the worker is: at the test of `drain` (in the loop or in the last round), writing what it took
  -- from the buffer, asleep, or at its end.
  pub data Worker : Type 0 where
    testing : Bool → Worker
    writing : Bool → Option Event → Worker
    sleeping stopped : Worker

  -- `holding` are the events of the producers that have a slot and wait for the lock. `accepted` are the
  -- events in the order in which they came into the buffer, `taken` those that the worker took out, and
  -- `written` those that reached the log.
  pub record QueueState : Type 0 where
    pub event_buffer : ℕ → Option Event
    pub event_buffer_head : ℕ
    pub event_buffer_tail : ℕ
    pub empty_slots : ℕ
    pub running : Bool
    pub worker : Worker
    pub holding : List Event
    pub accepted : List Event
    pub taken : List Event
    pub written : List Event

module _ {Event : Type 0} where
  abbrev pub store : (ℕ → Option Event) → ℕ → Option Event → ℕ → Option Event
  store buffer i value j = if eqb i j then value else buffer j

  abbrev pub listed : Option Event → List Event
  listed none = []
  listed (some e) = e ∷ []

  abbrev pub logged : Bool → Option Event → List Event
  logged true event = listed event
  logged false event = []

  abbrev pub next_round : Bool → Worker Event
  next_round true = sleeping
  next_round false = testing true

  abbrev pub wake : Bool → Worker Event
  wake running = testing (if running then false else true)

module _ {Event : Type 0} (buffer_capacity : ℕ) where
  unfoldable pub init : QueueState Event
  init = record {
    event_buffer = λ _. none;
    event_buffer_head = 0;
    event_buffer_tail = 0;
    empty_slots = buffer_capacity;
    running = true;
    worker = testing false;
    holding = [];
    accepted = [];
    taken = [];
    written = [];
  }

  -- enqueue, up to the lock, and under the lock
  unfoldable pub acquire_slot : Event → QueueState Event → QueueState Event
  acquire_slot e s = record s { empty_slots = s.empty_slots - 1; holding = s.holding ++ (e ∷ []) }

  unfoldable pub enqueue : Event → List Event → QueueState Event → QueueState Event
  enqueue e others s = record s {
    event_buffer = store s.event_buffer s.event_buffer_tail (some e);
    event_buffer_tail = (s.event_buffer_tail + 1) % buffer_capacity;
    holding = others;
    accepted = s.accepted ++ (e ∷ []);
  }

  -- drain, under the lock
  unfoldable pub take_event : Bool → QueueState Event → QueueState Event
  take_event last s = record s {
    event_buffer = store s.event_buffer s.event_buffer_head none;
    event_buffer_head = (s.event_buffer_head + 1) % buffer_capacity;
    worker = writing last (s.event_buffer s.event_buffer_head);
    taken = s.taken ++ listed (s.event_buffer s.event_buffer_head);
  }

  -- The write, which may fail, and the release of the slot.
  unfoldable pub finish_write : Bool → Option Event → Bool → QueueState Event → QueueState Event
  finish_write last event success s = record s {
    empty_slots = s.empty_slots + 1;
    worker = testing last;
    written = s.written ++ logged success event;
  }

  pub data Step (s : QueueState Event) : QueueState Event → Type 0 where
    acquires : (e : Event) → 0 < s.empty_slots → Step s (acquire_slot e s)
    enqueues :
        (e : Event) (before after : List Event)
        → s.holding ≡ before ++ (e ∷ after)
        → Step s (enqueue e (before ++ after) s)
    takes :
        (last : Bool)
        → s.worker ≡ testing last
        → s.empty_slots < buffer_capacity
        → Step s (take_event last s)
    writes :
        (last : Bool) (event : Option Event) (success : Bool)
        → s.worker ≡ writing last event
        → Step s (finish_write last event success s)
    -- The end of `drain`, in the loop and in the last round.
    ends_round :
        s.worker ≡ testing false
        → s.empty_slots ≡ buffer_capacity
        → Step s (record s { worker = next_round s.running })
    wakes : s.worker ≡ sleeping → Step s (record s { worker = wake s.running })
    stops :
        s.worker ≡ testing true
        → s.empty_slots ≡ buffer_capacity
        → Step s (record s { worker = stopped })
    shuts_down : Step s (record s { running = false })

  pub data Reach : QueueState Event → Type 0 where
    start : Reach init
    later : {s t : QueueState Event} → Reach s → Step s t → Reach t

  -- The worker takes only when an occupied slot belongs to no producer that still waits for the lock.
  abbrev pub IsCalm : {s t : QueueState Event} → Step s t → Type 0
  IsCalm {s} (takes last at_test some_occupied) = length s.holding + s.empty_slots < buffer_capacity
  IsCalm _ = Unit

  pub data CalmReach : QueueState Event → Type 0 where
    start : CalmReach init
    later : {s t : QueueState Event} → CalmReach s → (st : Step s t) → IsCalm st → CalmReach t
