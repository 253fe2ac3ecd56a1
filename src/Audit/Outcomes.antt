-- ===== src/Audit/Outcomes.antt =====
-- What became of the writes of a run, read off its steps.
use mathlib.Core.List.{append-nil, map}
use transeptor_bundler.Prelude.{
  ℕ, ◌≡◌, refl, sym, ap, ◌∙◌, Bool, true, false, List, [], ◌∷◌, ◌++◌, none, some,
}
use transeptor_bundler.Audit.{
  Worker, writing, QueueState, init, acquire_slot, enqueue, take_event, finish_write, logged,
  listed, next_round, Step, acquires, enqueues, takes, writes, ends_round, wakes, stops, shuts_down,
  CalmReach, start, later,
}

module _ {Event : Type 0} where
  -- The event in the hands of the worker.
  abbrev pub in_hand : Worker Event → List Event
  in_hand (writing last event) = listed event
  in_hand _ = []

  -- The events whose write succeeded.
  abbrev pub successes : List (Event × Bool) → List Event
  successes [] = []
  successes ((e, true) ∷ outcomes) = e ∷ successes outcomes
  successes ((e, false) ∷ outcomes) = successes outcomes

  successes-append :
      (xs ys : List (Event × Bool)) → successes (xs ++ ys) ≡ successes xs ++ successes ys
  successes-append [] ys = refl
  successes-append ((e, true) ∷ xs) ys = ap (λ l. e ∷ l) (successes-append xs ys)
  successes-append ((e, false) ∷ xs) ys = successes-append xs ys

  events-append :
      (xs ys : List (Event × Bool))
      → map (λ o. o.0) (xs ++ ys) ≡ map (λ o. o.0) xs ++ map (λ o. o.0) ys
  events-append [] ys = refl
  events-append (x ∷ xs) ys = ap (λ l. x.0 ∷ l) (events-append xs ys)

  idle_round : (running : Bool) → in_hand (next_round running) ≡ []
  idle_round true = refl
  idle_round false = refl

module _ {Event : Type 0} (capacity : ℕ) where
  -- The event of a step that ends a write, and whether the write succeeded.
  abbrev pub outcome_of : {s t : QueueState Event} → Step capacity s t → List (Event × Bool)
  outcome_of (writes last (some e) success at_write) = (e, success) ∷ []
  outcome_of _ = []

  -- The outcomes of the writes of a run, in the order of its steps.
  abbrev pub outcomes : {s : QueueState Event} → CalmReach capacity s → List (Event × Bool)
  outcomes start = []
  outcomes (later r st calm) = outcomes r ++ outcome_of st

  -- What was taken has an outcome or is in the hands of the worker, and what succeeded is in the log.
  abbrev pub IsSettled : QueueState Event → List (Event × Bool) → Type 0
  IsSettled s found =
      (s.taken ≡ map (λ o. o.0) found ++ in_hand s.worker) × (s.written ≡ successes found)

  -- A step that takes nothing and ends no write.
  moved :
      (s t : QueueState Event) (found : List (Event × Bool))
      → t.taken ≡ s.taken
      → t.written ≡ s.written
      → in_hand t.worker ≡ in_hand s.worker
      → IsSettled s found
      → IsSettled t (found ++ [])
  moved s t found taken written hand (out, log) =
      let same = append-nil found in
      (
        taken
            ∙ out
            ∙ ap (λ l. map (λ o. o.0) found ++ l) (sym hand)
            ∙ ap (λ l. map (λ o. o.0) l ++ in_hand t.worker) (sym same),
        written ∙ log ∙ ap successes (sym same),
      )

  ended :
      (last : Bool) (e : Event) (success : Bool) (s : QueueState Event)
      (found : List (Event × Bool))
      → s.worker ≡ writing last (some e)
      → IsSettled s found
      → IsSettled (finish_write capacity last (some e) success s) (found ++ ((e, success) ∷ []))
  unfolding finish_write
  ended last e success s found w (out, log) = (
    out
        ∙ ap (λ x. map (λ o. o.0) found ++ in_hand x) w
        ∙ sym (events-append found ((e, success) ∷ []))
        ∙ sym (append-nil (map (λ o. o.0) (found ++ ((e, success) ∷ [])))),
    ap (λ l. l ++ logged success (some e)) log
        ∙ ap (λ l. successes found ++ l) (one success)
        ∙ sym (successes-append found ((e, success) ∷ [])),
  )
    where
      one : (b : Bool) → logged b (some e) ≡ successes ((e, b) ∷ [])
      one true = refl
      one false = refl

  ended_none :
      (last success : Bool) (s : QueueState Event) (found : List (Event × Bool))
      → s.worker ≡ writing last none
      → IsSettled s found
      → IsSettled (finish_write capacity last none success s) (found ++ [])
  unfolding finish_write
  ended_none last success s found w v =
      moved s (finish_write capacity last none success s) found refl
        (ap (λ l. s.written ++ l) (nothing success) ∙ append-nil s.written) (sym (ap in_hand w)) v
    where
      nothing : (b : Bool) → logged {Event = Event} b none ≡ []
      nothing true = refl
      nothing false = refl

  taken_out :
      (last : Bool) (s : QueueState Event) (found : List (Event × Bool))
      → in_hand s.worker ≡ []
      → IsSettled s found
      → IsSettled (take_event capacity last s) (found ++ [])
  unfolding take_event
  taken_out last s found idle (out, log) =
      let same = append-nil found in
      (
        ap (λ t. t ++ listed (s.event_buffer s.event_buffer_head))
            (out
              ∙ ap (λ l. map (λ o. o.0) found ++ l) idle
              ∙ append-nil (map (λ o. o.0) found)
              ∙ ap (λ l. map (λ o. o.0) l) (sym same)),
        log ∙ ap successes (sym same),
      )

  Step-IsSettled :
      {s t : QueueState Event} (st : Step capacity s t) (found : List (Event × Bool))
      → IsSettled s found
      → IsSettled t (found ++ outcome_of st)
  unfolding acquire_slot enqueue
  Step-IsSettled {s} {t} (acquires e h) found v = moved s t found refl refl refl v
  Step-IsSettled {s} {t} (enqueues e before after h) found v = moved s t found refl refl refl v
  Step-IsSettled {s} {t} (takes last h lt) found v = taken_out last s found (ap in_hand h) v
  Step-IsSettled {s} {t} (writes last none success h) found v = ended_none last success s found h v
  Step-IsSettled {s} {t} (writes last (some e) success h) found v = ended last e success s found h v
  Step-IsSettled {s} {t} (ends_round h full) found v =
      moved s t found refl refl (idle_round s.running ∙ sym (ap in_hand h)) v
  Step-IsSettled {s} {t} (wakes h) found v = moved s t found refl refl (sym (ap in_hand h)) v
  Step-IsSettled {s} {t} (stops h full) found v = moved s t found refl refl (sym (ap in_hand h)) v
  Step-IsSettled {s} {t} shuts_down found v = moved s t found refl refl refl v

  pub CalmReach-IsSettled :
      {s : QueueState Event} (r : CalmReach capacity s) → IsSettled s (outcomes r)
  unfolding init
  CalmReach-IsSettled start = (refl, refl)
  CalmReach-IsSettled (later r st calm) = Step-IsSettled st (outcomes r) (CalmReach-IsSettled r)
