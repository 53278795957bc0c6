-- ===== src/Infprocessor/Results/Retries.antt =====
-- How often a task is tried again.
use inference_manager.Base.{
  ==_refl, Bool, Bool-cases, List, Option, String, [], ap, arith, false, if◌then◌else◌, inl, inr,
  length, lookup, lookup-insert, ltb, nat_eq, none, not, refl, some, string_eq, subst, suc, sym,
  true, ℕ, ◌++◌, ◌+◌, ◌<◌, ◌==◌, ◌||◌, ◌∙◌, ◌∷◌, ◌≡◌, ◌≤◌, ◌⊎◌,
}
use inference_manager.Infprocessor.Task.{
  ResultOrError, Task, TaskError, TaskResult, failure, result, retriable, unexpected_result_index,
}
use inference_manager.Infprocessor.State.{Processor}
use inference_manager.Infprocessor.Results.{
  Round, Verdict, after_process, can_retry, count_error, given_engine, go_on, is_retriable,
  max_retry_count, on_error, on_item, on_round, one_round, out_of_order, retried, run_loop,
}
use inference_manager.Infprocessor.Engines.{update_found, update_task}

-- The task that a reference holds.
abbrev pub Holds : ℕ → Processor → Task → Type 0
Holds ref p t = lookup ref p.heap ≡ some t

pub update_task-Holds :
    (ref : ℕ) (f : Task → Task) (p : Processor) (t : Task)
    → Holds ref p t
    → Holds ref (update_task ref f p) (f t)
update_task-Holds ref f p t h =
    ap (λ o. lookup ref (update_found ref f p o).heap) h
    ∙ (lookup-insert ref ref (f t) p.heap ∙ rw (==_refl {A = ℕ} ref))

pub on_error_cases :
    (ref : ℕ) (t : Task) (e : TaskError) (now : ℕ) (p : Processor)
    → Holds ref p t
    → let (q, v) = on_error ref t e now p in
      ((v ≡ none)
        × (is_retriable e ≡ true)
        × (t.next_result_index ≡ 0)
        × ((t.target_engine_id == "") ≡ true)
        × (t.retry_count < max_retry_count)
        × (now < t.created_at + p.retry_delay + p.task_timeout)
        × (q.delayed ≡ p.delayed ++ ref ∷ [])
        × Holds ref q (retried t))
      ⊎ ((v ≡ some (some e)) × (q ≡ count_error p))
unfolding on_error can_retry
on_error_cases ref t e now p h =
    elim (Bool-cases (ltb 0 t.next_result_index || not (can_retry p t e now))) [
      | inl c ↦ inr (ground (arith, c), ground (arith, c))
      | inr c ↦ inl (
        ground (arith, c),
        ground (arith, c),
        ground (arith, c),
        ground (arith, c),
        ground (arith, c),
        ground (arith, c),
        ground (arith, c),
        ground (arith, c, update_task-Holds ref retried (count_error p) t h),
      )
    ]

-- One more attempt, or one more result.
abbrev Progress : Task → Task → Type 0
Progress t u =
    ((u.retry_count ≡ t.retry_count + 1)
      × (u.next_result_index ≡ t.next_result_index)
      × (t.retry_count < max_retry_count))
    ⊎ ((u.retry_count ≡ t.retry_count) × (u.next_result_index ≡ t.next_result_index + 1))

Carried : ℕ → Task → Processor → Type 0
Carried ref t q = (u : Task) × Holds ref q u × Progress t u

module _ {ℓ} {W : Type ℓ} (process_result : TaskResult → W → W × Option TaskError) where
  on_error-Carried :
      (ref : ℕ) (t : Task) (e : TaskError) (now : ℕ) (p : Processor)
      → Holds ref p t
      → (on_error ref t e now p).1 ≡ none
      → Carried ref t (on_error ref t e now p).0
  unfolding Carried retried
  on_error-Carried ref t e now p h v = elim (on_error_cases ref t e now p h) [
    | inl (_, _, _, _, few, _, _, held) ↦ (retried t, held, inl (refl, refl, few))
    | inr (stopped, _) ↦ cc (v, stopped)
  ]

  after_process-Carried :
      (ref : ℕ) (t : Task) (r : TaskResult) (now : ℕ) (p : Processor) (o : W × Option TaskError)
      → Holds ref p t
      → (after_process process_result ref t r now p o).2 ≡ none
      → Carried ref t (after_process process_result ref t r now p o).0
  unfolding Carried
  after_process-Carried ref t r now p (w, some e) h v = on_error-Carried ref t e now p h v
  after_process-Carried ref t r now p (w, none) h v = (
    record t { next_result_index = t.next_result_index + 1 },
    update_task-Holds ref (λ x. record x { next_result_index = x.next_result_index + 1 }) p t h,
    inr (refl, refl),
  )

  on_item-Carried :
      (ref : ℕ) (t : Task) (i : ResultOrError) (now : ℕ) (p : Processor) (w : W)
      → Holds ref p t
      → (on_item process_result ref t i now p w).2 ≡ none
      → Carried ref t (on_item process_result ref t i now p w).0
  unfolding on_item
  on_item-Carried ref t (failure e) now p w h v = on_error-Carried ref t (retriable e) now p h v
  on_item-Carried ref t (result r) now p w h v = go (out_of_order t r) v
    where
      rest : Processor × W × Verdict
      rest = after_process process_result ref t r now p (process_result r w)

      go :
          (b : Bool)
          → (if b then (p, w, some (some unexpected_result_index)) else rest).2 ≡ none
          → Carried ref t (if b then (p, w, some (some unexpected_result_index)) else rest).0
      go true e = cc e
      go false e = after_process-Carried ref t r now p (process_result r w) h e

  -- What a loop that is still waiting has done: as many rounds as attempts and results.
  pub record Accounted (ref n : ℕ) (t : Task) (q : Processor) : Type 0 where
    pub task : Task
    pub holds : Holds ref q task
    pub rounds : task.retry_count + task.next_result_index ≡ t.retry_count + t.next_result_index + n
    pub few : task.retry_count ≤ max_retry_count
    pub more : t.retry_count ≤ task.retry_count

  Accounted-step :
      (ref n : ℕ) (e : String) (t u : Task) (q : Processor)
      → Progress (given_engine e t) u
      → Accounted ref n u q
      → Accounted ref (suc n) t q
  Accounted-step ref n e t u q c a = record {
    task = a.task;
    holds = a.holds;
    rounds = ground (arith, c, a.rounds);
    few = a.few;
    more = ground (arith, c, a.more);
  }

  one_round-Carried :
      (ref : ℕ) (r : Round) (t : Task) (p : Processor) (w : W)
      → Holds ref p t
      → (one_round process_result ref r p w).2 ≡ none
      → Carried ref (given_engine r.engine_id t) (one_round process_result ref r p w).0
  unfolding one_round
  one_round-Carried ref r t p w h v =
      let p1 = update_task ref (given_engine r.engine_id) p in
      let held : Holds ref p1 (given_engine r.engine_id t) =
        update_task-Holds ref (given_engine r.engine_id) p t h in
      subst
        (λ o.
          (on_round process_result ref r p1 w o).2 ≡ none
          → Carried ref (given_engine r.engine_id t) (on_round process_result ref r p1 w o).0)
        (sym held) (on_item-Carried ref (given_engine r.engine_id t) r.item r.now p1 w held) v

  -- However many items come, a task that starts with at most three retries is tried again at most
  -- three times in all: of the rounds that a loop that still waits has done, all but the retries
  -- that were left have processed a result.
  pub run_loop-Accounted :
      (ref : ℕ) (rs : List Round) (t : Task) (p : Processor) (w : W)
      → Holds ref p t
      → t.retry_count ≤ max_retry_count
      → (run_loop process_result ref rs p w).2 ≡ none
      → Accounted ref (length rs) t (run_loop process_result ref rs p w).0
  unfolding run_loop Carried
  run_loop-Accounted ref [] t p w h few v = record {
    task = t;
    holds = h;
    rounds = omega arith;
    few = few;
    more = omega arith;
  }
  run_loop-Accounted ref (r ∷ rs) t p w h few v =
      go (one_round process_result ref r p w).2 (one_round-Carried ref r t p w h)
        (λ u. run_loop-Accounted ref rs u q w') v
    where
      q : Processor
      q = (one_round process_result ref r p w).0

      w' : W
      w' = (one_round process_result ref r p w).1

      next : Processor → W → Processor × W × Verdict
      next = run_loop process_result ref rs

      go :
          (x : Verdict)
          → (x ≡ none → Carried ref (given_engine r.engine_id t) q)
          → ((u : Task)
              → Holds ref q u
              → u.retry_count ≤ max_retry_count
              → (next q w').2 ≡ none
              → Accounted ref (length rs) u (next q w').0)
          → (go_on process_result next q w' x).2 ≡ none
          → Accounted ref (suc (length rs)) t (go_on process_result next q w' x).0
      go (some y) c ih e = cc e
      go none c ih e =
          let (u, held, progress) = c refl in
          Accounted-step ref (length rs) r.engine_id t u (next q w').0 progress
            (ih u held (ground (arith, progress)) e)
