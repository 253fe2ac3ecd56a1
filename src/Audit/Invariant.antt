-- ===== src/Audit/Invariant.antt =====
-- What every state of a calm run satisfies.
use mathlib.Core.List.{append_assoc}
use transeptor_bundler.Prelude.{
  ℕ, ◌+◌, ◌%◌, ◌<◌, ◌≡◌, refl, sym, ap, ◌∙◌, subst, Bool, true, false, List, [], ◌∷◌, ◌++◌, length,
  length-append, Option, none, some, arith,
}
use transeptor_bundler.Audit.{
  Worker, testing, writing, QueueState, init, store, listed, acquire_slot, enqueue, take_event,
  finish_write, next_round, Step, acquires, enqueues, takes, writes, ends_round, wakes, stops,
  shuts_down, IsCalm, CalmReach, start, later,
}
use transeptor_bundler.Audit.Ring.{
  place, next_place, place_next, place_lt, place-place, Holds, Holds-enqueue, Holds-take,
  length-snoc,
}

module _ {Event : Type 0} where
  -- The slot of the worker.
  abbrev pub busy : Worker Event → ℕ
  busy (writing last event) = 1
  busy _ = 0

idle_round : (Event : Type 0) (running : Bool) → busy {Event = Event} (next_round running) ≡ 0
idle_round Event true = refl
idle_round Event false = refl

module _ {Event : Type 0} (capacity : ℕ) where
  pub record Inv (s : QueueState Event) : Type 0 where
    pub queued : List Event
    pub below : s.event_buffer_head < capacity
    pub tail : s.event_buffer_tail ≡ place capacity s.event_buffer_head (length queued)
    pub order : s.accepted ≡ s.taken ++ queued
    pub slots : s.empty_slots + length s.holding + length queued + busy s.worker ≡ capacity
    pub held : Holds capacity s.event_buffer s.event_buffer_head queued

  init-Inv : 0 < capacity → Inv (init capacity)
  unfolding init
  init-Inv h = record {
    queued = [];
    below = h;
    tail = ground arith;
    order = refl;
    slots = omega arith;
    held = λ i lt. absurd (omega arith);
  }

  acquires-Inv :
      (e : Event) (s : QueueState Event)
      → 0 < s.empty_slots
      → Inv s
      → Inv (acquire_slot capacity e s)
  unfolding acquire_slot
  acquires-Inv e s h v = record {
    queued = v.queued;
    below = v.below;
    tail = v.tail;
    order = v.order;
    slots = omega (arith, v.slots, length-snoc s.holding e);
    held = v.held;
  }

  enqueues-Inv :
      (e : Event) (before after : List Event) (s : QueueState Event)
      → s.holding ≡ before ++ (e ∷ after)
      → Inv s
      → Inv (enqueue capacity e (before ++ after) s)
  unfolding enqueue
  enqueues-Inv e before after s h v =
      let count = ap length h ∙ length-append before (e ∷ after) in
      let room : length v.queued < capacity = omega (arith, v.slots, count) in
      record {
        queued = v.queued ++ (e ∷ []);
        below = v.below;
        tail =
            ap (λ t. (t + 1) % capacity) v.tail
            ∙ next_place capacity _ (place_lt capacity s.event_buffer_head _ v.below (omega arith))
            ∙ place_next capacity s.event_buffer_head (length v.queued) v.below room
            ∙ ap (place capacity s.event_buffer_head) (sym (length-snoc v.queued e));
        order = ap (λ l. l ++ (e ∷ [])) v.order ∙ append_assoc s.taken v.queued (e ∷ []);
        slots = omega (arith, v.slots, count, length-append before after, length-snoc v.queued e);
        held =
            subst
              (λ t.
                Holds capacity (store s.event_buffer t (some e)) s.event_buffer_head
                  (v.queued ++ (e ∷ [])))
              (sym v.tail)
              (Holds-enqueue capacity s.event_buffer s.event_buffer_head v.below v.queued e room
                v.held);
      }

  -- The place at the head of the buffer.
  at_head :
      (s : QueueState Event) (e : Event) (q : List Event)
      → s.event_buffer_head < capacity
      → Holds capacity s.event_buffer s.event_buffer_head (e ∷ q)
      → s.event_buffer s.event_buffer_head ≡ some e
  at_head s e q below held =
      ap s.event_buffer (here s.event_buffer_head below) ∙ held 0 (omega arith)
    where
      here : (x : ℕ) → x < capacity → x ≡ place capacity x 0
      here x h = ground arith

  takes_first :
      (last : Bool) (s : QueueState Event) (e : Event) (q : List Event)
      → s.worker ≡ testing last
      → s.event_buffer_head < capacity
      → s.event_buffer_tail ≡ place capacity s.event_buffer_head (length (e ∷ q))
      → s.accepted ≡ s.taken ++ (e ∷ q)
      → s.empty_slots + length s.holding + length (e ∷ q) + busy s.worker ≡ capacity
      → Holds capacity s.event_buffer s.event_buffer_head (e ∷ q)
      → Inv (take_event capacity last s)
  unfolding take_event
  takes_first last s e q test below tail order slots held =
      let head = s.event_buffer_head in
      let first = at_head s e q below held in
      let next = next_place capacity head below in
      record {
        queued = q;
        below = subst (λ h. h < capacity) (sym next) (place_lt capacity head 1 below (omega arith));
        tail =
            tail
            ∙ sym (place-place capacity head (length q) below (omega arith))
            ∙ ap (λ h. place capacity h (length q)) (sym next);
        order =
            order
            ∙ sym (append_assoc s.taken (e ∷ []) q)
            ∙ ap (λ o. (s.taken ++ listed o) ++ q) (sym first);
        slots = omega (arith, ap busy test);
        held =
            subst (λ h. Holds capacity (store s.event_buffer head none) h q) (sym next)
              (Holds-take capacity s.event_buffer head below q e (omega arith) held);
      }

  takes-Inv :
      (last : Bool) (s : QueueState Event)
      → s.worker ≡ testing last
      → length s.holding + s.empty_slots < capacity
      → Inv s
      → Inv (take_event capacity last s)
  takes-Inv last s test calm v = by_queue v.queued v.tail v.order v.slots v.held
    where
      by_queue :
          (queued : List Event)
          → s.event_buffer_tail ≡ place capacity s.event_buffer_head (length queued)
          → s.accepted ≡ s.taken ++ queued
          → s.empty_slots + length s.holding + length queued + busy s.worker ≡ capacity
          → Holds capacity s.event_buffer s.event_buffer_head queued
          → Inv (take_event capacity last s)
      by_queue [] tail order slots held = absurd (omega (arith, ap busy test))
      by_queue (e ∷ q) tail order slots held =
          takes_first last s e q test v.below tail order slots held

  writes-Inv :
      (last : Bool) (event : Option Event) (success : Bool) (s : QueueState Event)
      → s.worker ≡ writing last event
      → Inv s
      → Inv (finish_write capacity last event success s)
  unfolding finish_write
  writes-Inv last event success s w v = record {
    queued = v.queued;
    below = v.below;
    tail = v.tail;
    order = v.order;
    slots = omega (arith, v.slots, ap busy w);
    held = v.held;
  }

  -- A step that changes only where the worker is, between places at which it has no slot.
  moves-Inv :
      (s : QueueState Event) (w : Worker Event)
      → busy w ≡ busy s.worker
      → Inv s
      → Inv (record s { worker = w })
  moves-Inv s w same v = record {
    queued = v.queued;
    below = v.below;
    tail = v.tail;
    order = v.order;
    slots = omega (arith, v.slots, same);
    held = v.held;
  }

  Step-Inv : {s t : QueueState Event} (st : Step capacity s t) → IsCalm capacity st → Inv s → Inv t
  Step-Inv {s} (acquires e h) calm v = acquires-Inv e s h v
  Step-Inv {s} (enqueues e before after h) calm v = enqueues-Inv e before after s h v
  Step-Inv {s} (takes last h lt) calm v = takes-Inv last s h calm v
  Step-Inv {s} (writes last event success h) calm v = writes-Inv last event success s h v
  Step-Inv {s} (ends_round h full) calm v =
      moves-Inv s _ (idle_round Event s.running ∙ sym (ap busy h)) v
  Step-Inv {s} (wakes h) calm v = moves-Inv s _ (sym (ap busy h)) v
  Step-Inv {s} (stops h full) calm v = moves-Inv s _ (sym (ap busy h)) v
  Step-Inv {s} shuts_down calm v = record {
    queued = v.queued;
    below = v.below;
    tail = v.tail;
    order = v.order;
    slots = v.slots;
    held = v.held;
  }

  pub CalmReach-Inv : {s : QueueState Event} → 0 < capacity → CalmReach capacity s → Inv s
  CalmReach-Inv h start = init-Inv h
  CalmReach-Inv h (later r st calm) = Step-Inv st calm (CalmReach-Inv h r)
