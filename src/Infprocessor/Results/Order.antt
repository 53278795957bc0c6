-- ===== src/Infprocessor/Results/Order.antt =====
-- The order in which the results of a task are processed.
use inference_manager.Base.{
  Bool, List, Option, [], arith, false, if◌then◌else◌, inl, inr, length, length-append, nat_eq,
  none, refl, some, string_eq, subst, suc, sym, true, ℕ, ◌++◌, ◌+◌, ◌∷◌, ◌≡◌, ◌⊎◌,
}
use inference_manager.Infprocessor.Task.{
  ResultOrError, Task, TaskError, TaskResult, failure, result, retriable, unexpected_result_index,
}
use inference_manager.Infprocessor.State.{Processor}
use inference_manager.Infprocessor.Results.{
  Round, Verdict, after_process, given_engine, go_on, on_error, on_item, on_round, one_round,
  out_of_order, retried, run_loop,
}
use inference_manager.Infprocessor.Results.Retries.{Holds, on_error_cases, update_task-Holds}
use inference_manager.Infprocessor.Engines.{update_task}

-- Each result has the index of its place, counted from `n`, or is not numbered.
abbrev pub InOrder : ℕ → List TaskResult → Type 0
InOrder n [] = Unit {0}
InOrder n (r ∷ rs) = ((r.result_index ≡ 0) ⊎ (r.result_index ≡ n)) × InOrder (suc n) rs

InOrder-append :
    (n : ℕ) (rs : List TaskResult) (r : TaskResult)
    → InOrder n rs
    → (r.result_index ≡ 0) ⊎ (r.result_index ≡ n + length rs)
    → InOrder n (rs ++ r ∷ [])
InOrder-append n [] r h i = (ground (arith, i), tt)
InOrder-append n (x ∷ xs) r h i = (h.0, InOrder-append (suc n) xs r h.1 (ground (arith, i)))

module _ {ℓ} {W : Type ℓ} (process_result : TaskResult → W → W × Option TaskError) where
  abbrev noted :
      TaskResult → List TaskResult → W × Option TaskError → (W × List TaskResult) × Option TaskError
  noted r log (w, none) = ((w, log ++ r ∷ []), none)
  noted r log (w, some e) = ((w, log), some e)

  -- The same processing, with a note of each result that was processed without an error.
  abbrev pub noting : TaskResult → W × List TaskResult → (W × List TaskResult) × Option TaskError
  noting r (w, log) = noted r log (process_result r w)

  -- The task counts the noted results, and they are in order.
  record Counts (ref : ℕ) (p : Processor) (log : List TaskResult) : Type 0 where
    task : Task
    holds : Holds ref p task
    counted : task.next_result_index ≡ length log
    in_order : InOrder 0 log

  Kept : ℕ → Processor × (W × List TaskResult) × Verdict → Type 0
  Kept ref (q, (w, log), v) = InOrder 0 log × (v ≡ none → Counts ref q log)

  on_error-Kept :
      (ref : ℕ) (t : Task) (e : TaskError) (now : ℕ) (p : Processor) (w : W) (log : List TaskResult)
      → Holds ref p t
      → t.next_result_index ≡ length log
      → InOrder 0 log
      → Kept ref ((on_error ref t e now p).0, (w, log), (on_error ref t e now p).1)
  unfolding Kept retried
  on_error-Kept ref t e now p w log h c o = (
    o,
    λ v. elim (on_error_cases ref t e now p h) [
      | inl (_, _, _, _, _, _, _, held) ↦ record {
        task = retried t;
        holds = held;
        counted = c;
        in_order = o;
      }
      | inr (stopped, _) ↦ cc (v, stopped)
    ],
  )

  after_process-Kept :
      (ref : ℕ) (t : Task) (r : TaskResult) (now : ℕ) (p : Processor) (log : List TaskResult)
      (o : W × Option TaskError)
      → Holds ref p t
      → t.next_result_index ≡ length log
      → InOrder 0 log
      → out_of_order t r ≡ false
      → Kept ref (after_process noting ref t r now p (noted r log o))
  unfolding Kept
  after_process-Kept ref t r now p log (w, some e) h c o i = on_error-Kept ref t e now p w log h c o
  after_process-Kept ref t r now p log (w, none) h c o i =
      let longer : InOrder 0 (log ++ r ∷ []) = InOrder-append 0 log r o (ground (arith, i)) in
      (
        longer,
        λ v. record {
          task = record t { next_result_index = t.next_result_index + 1 };
          holds =
              update_task-Holds ref (λ x. record x { next_result_index = x.next_result_index + 1 })
                p t h;
          counted = omega (arith, length-append log (r ∷ []));
          in_order = longer;
        },
      )

  on_item-Kept :
      (ref : ℕ) (t : Task) (i : ResultOrError) (now : ℕ) (p : Processor) (w : W)
      (log : List TaskResult)
      → Holds ref p t
      → t.next_result_index ≡ length log
      → InOrder 0 log
      → Kept ref (on_item noting ref t i now p (w, log))
  unfolding on_item Kept
  on_item-Kept ref t (failure e) now p w log h c o =
      on_error-Kept ref t (retriable e) now p w log h c o
  on_item-Kept ref t (result r) now p w log h c o =
      go (out_of_order t r) (after_process-Kept ref t r now p log (process_result r w) h c o)
    where
      rest : Processor × (W × List TaskResult) × Verdict
      rest = after_process noting ref t r now p (noting r (w, log))

      go :
          (b : Bool)
          → (b ≡ false → Kept ref rest)
          → Kept ref (if b then (p, (w, log), some (some unexpected_result_index)) else rest)
      go true k = (o, λ v. cc v)
      go false k = k refl

  one_round-Kept :
      (ref : ℕ) (r : Round) (p : Processor) (w : W) (log : List TaskResult)
      → Counts ref p log
      → Kept ref (one_round noting ref r p (w, log))
  unfolding one_round
  one_round-Kept ref r p w log c =
      let p1 = update_task ref (given_engine r.engine_id) p in
      let t = given_engine r.engine_id c.task in
      let held : Holds ref p1 t =
        update_task-Holds ref (given_engine r.engine_id) p c.task c.holds in
      subst (λ o. Kept ref (on_round noting ref r p1 (w, log) o)) (sym held)
        (on_item-Kept ref t r.item r.now p1 w log held c.counted c.in_order)

  loop-InOrder :
      (ref : ℕ) (rs : List Round) (p : Processor) (w : W) (log : List TaskResult)
      → Counts ref p log
      → InOrder 0 ((run_loop noting ref rs p (w, log)).1).1
  unfolding run_loop Kept
  loop-InOrder ref [] p w log c = c.in_order
  loop-InOrder ref (r ∷ rs) p w log c =
      go (one_round noting ref r p (w, log)) (one_round-Kept ref r p w log c) (loop-InOrder ref rs)
    where
      next : Processor → W × List TaskResult → Processor × (W × List TaskResult) × Verdict
      next = run_loop noting ref rs

      go :
          (o : Processor × (W × List TaskResult) × Verdict)
          → Kept ref o
          → ((q : Processor) (w' : W) (log' : List TaskResult)
              → Counts ref q log'
              → InOrder 0 ((next q (w', log')).1).1)
          → InOrder 0 ((go_on noting next o.0 o.1 o.2).1).1
      go (q, (w', log'), none) k ih = ih q w' log' (k.1 refl)
      go (q, (w', log'), some v) k ih = k.0

  -- Whatever comes in the channel of a task that has processed no result, the results that are
  -- processed are the ones numbered 0, 1, 2 and so on in this order, but for results that carry
  -- the index 0.
  pub run_loop-InOrder :
      (ref : ℕ) (rs : List Round) (t : Task) (p : Processor) (w : W)
      → Holds ref p t
      → t.next_result_index ≡ 0
      → InOrder 0 ((run_loop noting ref rs p (w, [])).1).1
  run_loop-InOrder ref rs t p w h z =
      loop-InOrder ref rs p w [] (record { task = t; holds = h; counted = z; in_order = tt })
