-- ===== src/Event/Logs.antt =====
-- `filterLogs`: which logs it cuts out.
use transeptor_bundler.Prelude.{
  ℕ, suc, ◌+◌, String, ◌≡◌, refl, ap, ◌∙◌, Bool, true, false, ◌&&◌, List, [], ◌∷◌, ◌++◌, at, length,
  take, drop, slice, All, none, some, arith,
}
use transeptor_bundler.Outcome.{right}
use transeptor_bundler.Event.{Log, Range, same_text, mark_log, mark_logs, cut, filter_logs}

module _ (before_execution : String) (own : List String) where
  abbrev is_start : Log → Bool
  is_start log = same_text (at 0 log.topics) (some before_execution)

  abbrev is_operation : Log → Bool
  is_operation log = same_text (at 0 log.topics) (at 0 own)

  abbrev is_own : Log → Bool
  is_own log = is_operation log && same_text (at 1 log.topics) (at 1 own)

  -- A log that is no BeforeExecution event and not the operation's own event.
  abbrev pub IsOther : Log → Type 0
  IsOther log = (is_start log ≡ false) × (is_own log ≡ false)

  -- A log that is no BeforeExecution event and no UserOperationEvent at all.
  abbrev pub IsPlain : Log → Type 0
  IsPlain log = (is_start log ≡ false) × (is_operation log ≡ false)

  mark_logs-append :
      (xs ys : List Log) (i : ℕ) (r : Range)
      → mark_logs before_execution own i (xs ++ ys) r
        ≡ mark_logs before_execution own (i + length xs) ys (mark_logs before_execution own i xs r)
  unfolding mark_logs
  mark_logs-append [] ys i r = ap (λ j. mark_logs before_execution own j ys r) (omega arith)
  mark_logs-append (x ∷ xs) ys i r =
      mark_logs-append xs ys (i + 1) _
      ∙ ap
          (λ j.
            mark_logs before_execution own j ys
              (mark_logs before_execution own (i + 1) xs (mark_log before_execution own i x r)))
          (omega arith)

  -- Once the end is set, other logs change nothing.
  mark_logs-other :
      (xs : List Log) (i e : ℕ) (r : Range)
      → r.end_index ≡ some e
      → All IsOther xs
      → mark_logs before_execution own i xs r ≡ r
  unfolding mark_logs mark_log
  mark_logs-other [] i e r h p = refl
  mark_logs-other (x ∷ xs) i e r h (p, ps) = ground (arith, mark_logs-other xs (i + 1) e r h)

  -- Plain logs never change anything.
  mark_logs-plain :
      (xs : List Log) (i : ℕ) (r : Range)
      → All IsPlain xs
      → mark_logs before_execution own i xs r ≡ r
  unfolding mark_logs mark_log
  mark_logs-plain [] i r p = refl
  mark_logs-plain (x ∷ xs) i r (p, ps) = rw (p.0, p.1) (mark_logs-plain xs (i + 1) r ps)

drop-append {ℓ} : {A : Type ℓ} (xs ys : List A) (x : A) → drop (suc (length xs)) (xs ++ x ∷ ys) ≡ ys
drop-append [] ys x = refl
drop-append (z ∷ xs) ys x = drop-append xs ys x

take-append {ℓ} : {A : Type ℓ} (xs ys : List A) → take (length xs) (xs ++ ys) ≡ xs
take-append [] ys = refl
take-append (z ∷ xs) ys = rw (take-append xs ys)

slice-append {ℓ} :
    {A : Type ℓ} (xs ys zs : List A) (x : A)
    → slice (length xs + 1) (length xs + 1 + length ys) (xs ++ x ∷ (ys ++ zs)) ≡ ys
slice-append xs ys zs x =
    ap (λ n. take n (drop (length xs + 1) (xs ++ x ∷ (ys ++ zs)))) {y = length ys} (omega arith)
    ∙ ap (λ n. take (length ys) (drop n (xs ++ x ∷ (ys ++ zs)))) {y = suc (length xs)} (omega arith)
    ∙ ap (take (length ys)) (drop-append xs (ys ++ zs) x)
    ∙ take-append ys zs

module _ (before_execution : String) (own : List String) where
  mark_log-start :
      (i : ℕ) (log : Log) (r : Range)
      → is_start before_execution own log ≡ true
      → mark_log before_execution own i log r ≡ record { start_index = some i; end_index = some i }
  unfolding mark_log
  mark_log-start i log r s = rw s

  mark_log-own :
      (i : ℕ) (log : Log) (r : Range)
      → is_start before_execution own log ≡ false
      → is_own before_execution own log ≡ true
      → mark_log before_execution own i log r ≡ record r { end_index = some i }
  unfolding mark_log
  mark_log-own i log r s o = ground arith

  -- From the start on, with the operation's own event after `mid`.
  mark_logs-own :
      (mid rest : List Log) (end' : Log) (i e : ℕ) (r : Range)
      → r.end_index ≡ some e
      → All (IsOther before_execution own) mid
      → is_start before_execution own end' ≡ false
      → is_own before_execution own end' ≡ true
      → All (IsOther before_execution own) rest
      → mark_logs before_execution own i (mid ++ end' ∷ rest) r
        ≡ record r { end_index = some (i + length mid) }
  unfolding mark_logs
  mark_logs-own mid rest end' i e r h m s o k =
      mark_logs-append before_execution own mid (end' ∷ rest) i r
      ∙ ap (mark_logs before_execution own (i + length mid) (end' ∷ rest))
          (mark_logs-other before_execution own mid i e r h m)
      ∙ ap (mark_logs before_execution own (i + length mid + 1) rest)
          (mark_log-own (i + length mid) end' r s o)
      ∙ mark_logs-other before_execution own rest (i + length mid + 1) (i + length mid) _ refl k

  -- What stands before a BeforeExecution event does not matter.
  mark_logs-start :
      (pre tail : List Log) (start : Log) (r : Range)
      → is_start before_execution own start ≡ true
      → mark_logs before_execution own 0 (pre ++ start ∷ tail) r
        ≡ mark_logs before_execution own
            (length pre + 1)
            tail
            (record { start_index = some (length pre); end_index = some (length pre) })
  unfolding mark_logs
  mark_logs-start pre tail start r s =
      mark_logs-append before_execution own pre (start ∷ tail) 0 r
      ∙ ap
          (λ i.
            mark_logs before_execution own i (start ∷ tail)
              (mark_logs before_execution own 0 pre r))
          {y = length pre} (omega arith)
      ∙ ap (mark_logs before_execution own (length pre + 1) tail)
          (mark_log-start (length pre) start _ s)

  cut-marked :
      (logs : List Log) (r : Range)
      → mark_logs before_execution own 0 logs (record { start_index = none; end_index = none }) ≡ r
      → filter_logs (some before_execution) own logs ≡ cut logs r r.end_index
  unfolding filter_logs
  cut-marked logs r h = ap (λ x. cut logs x x.end_index) h

  -- If a BeforeExecution event is followed by the operation's own event, and no other of these two
  -- kinds comes after the first of them, `filterLogs` returns all that stands between them: also the
  -- logs and the events of other operations of the bundle.
  pub filter_logs-between :
      (pre mid rest : List Log) (start end' : Log)
      → is_start before_execution own start ≡ true
      → All (IsOther before_execution own) mid
      → is_start before_execution own end' ≡ false
      → is_own before_execution own end' ≡ true
      → All (IsOther before_execution own) rest
      → filter_logs (some before_execution) own (pre ++ start ∷ (mid ++ end' ∷ rest)) ≡ right mid
  filter_logs-between pre mid rest start end' s m e o k =
      cut-marked (pre ++ start ∷ (mid ++ end' ∷ rest)) _ (
        mark_logs-start pre (mid ++ end' ∷ rest) start _ s
        ∙ mark_logs-own mid rest end' (length pre + 1) (length pre) _ refl m e o k)
      ∙ ap right (slice-append pre mid (end' ∷ rest) start)

  -- If the BeforeExecution event is there and the operation's own event is not, `filterLogs` returns no
  -- logs instead of an error.
  pub filter_logs-absent :
      (pre rest : List Log) (start : Log)
      → is_start before_execution own start ≡ true
      → All (IsOther before_execution own) rest
      → filter_logs (some before_execution) own (pre ++ start ∷ rest) ≡ right []
  filter_logs-absent pre rest start s k =
      cut-marked (pre ++ start ∷ rest) _ (
        mark_logs-start pre rest start _ s
        ∙ mark_logs-other before_execution own rest (length pre + 1) (length pre) _ refl k)
      ∙ ap (λ n. right (take n (drop (length pre + 1) (pre ++ start ∷ rest)))) {y = 0} (omega arith)
