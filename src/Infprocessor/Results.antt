-- ===== src/Infprocessor/Results.antt =====
-- The loop that processes the results of one task (`enqueueAndProcessTask`), and what it does with
-- a result (server/internal/infprocessor/infprocessor.go, processing_stats.go).
pub mod Retries
pub mod Order
pub mod Response
use inference_manager.Base.{
  Bool, List, Option, String, [], delete, eqb, false, if◌then◌else◌, insert, leb, lookup, ltb,
  nat_eq, none, not, some, string_eq, true, ℕ, ◌&&◌, ◌++◌, ◌+◌, ◌==◌, ◌||◌, ◌∷◌,
}
use inference_manager.Infprocessor.Task.{
  Message, ResultOrError, Task, TaskError, TaskResult, failure, http_response, result, retriable,
  server_sent_event, stream, unexpected_message, unexpected_result_index, unset_message,
}
use inference_manager.Infprocessor.State.{Processor, enqueue}
use inference_manager.Infprocessor.Engines.{update_task}

abbrev pub max_retry_count : ℕ
max_retry_count = 3

-- `errors.As(err, &retriableError{})`: the errors of this package wrap no other error in a way that
-- `errors.As` sees.
abbrev pub is_retriable : TaskError → Bool
is_retriable (retriable e) = true
is_retriable _ = false

-- `time.Since(createdAt + retryDelay) < taskTimeout`, with the terms moved to one side.
unfoldable pub can_retry : Processor → Task → TaskError → ℕ → Bool
can_retry p t e now =
    is_retriable e
    && t.target_engine_id == ""
    && ltb t.retry_count max_retry_count
    && ltb 0 p.task_timeout
    && ltb now (t.created_at + p.retry_delay + p.task_timeout)

abbrev pub ignoring : String → List (String × Bool) → List (String × Bool)
ignoring engine_id ignores =
    if not (engine_id == "") then insert engine_id true ignores else ignores

-- The task as the retry path leaves it.
unfoldable pub retried : Task → Task
retried t = record t {
  retry_count = t.retry_count + 1;
  preferred_ignored_engines = ignoring t.engine_id t.preferred_ignored_engines;
  engine_id = "";
}

-- `none` where the loop goes on, `some (some e)` where it returns the error `e`, and
-- `some none` where the task is complete.
abbrev pub Verdict : Type 0
Verdict = Option (Option TaskError)

abbrev pub count_error : Processor → Processor
count_error p = record p { task_error_count = p.task_error_count + 1 }

-- The error path: retry if possible, but not once a result has been processed. The timer of
-- `AfterFunc` is the entry in `delayed`.
unfoldable pub on_error : ℕ → Task → TaskError → ℕ → Processor → Processor × Verdict
on_error ref t e now p =
    if ltb 0 t.next_result_index || not (can_retry p t e now)
    then (count_error p, some (some e))
    else (
      record (update_task ref retried (count_error p)) { delayed = p.delayed ++ ref ∷ [] },
      none,
    )

unfoldable pub is_task_completed : Task → Message → Option Bool
is_task_completed t (http_response resp) = some (
    if not (stream t)
    then true
    else if eqb resp.status_code 503
    then false
    else if ltb resp.status_code 200 || leb 400 resp.status_code
    then true
    else false)
is_task_completed t (server_sent_event sse) = some sse.is_last_event
is_task_completed t unset_message = none

abbrev pub on_completed : Option Bool → Verdict
on_completed none = some (some unexpected_message)
on_completed (some true) = some none
on_completed (some false) = none

-- The result is out of order. The index 0 is exempt, for engines that do not number results.
abbrev pub out_of_order : Task → TaskResult → Bool
out_of_order t r = not (eqb r.result_index 0) && not (eqb t.next_result_index r.result_index)

abbrev pub advance : ℕ → Processor → Processor
advance ref p = update_task ref (λ t. record t { next_result_index = t.next_result_index + 1 }) p

module _ {ℓ} {W : Type ℓ} (process_result : TaskResult → W → W × Option TaskError) where
  abbrev pub after_process :
      ℕ → Task → TaskResult → ℕ → Processor → W × Option TaskError → Processor × W × Verdict
  after_process ref t r now p (w, some e) = let (q, v) = on_error ref t e now p in (q, w, v)
  after_process ref t r now p (w, none) =
      (advance ref p, w, on_completed (is_task_completed t r.message))

  -- One round of the loop, on an item taken from the result channel.
  unfoldable pub on_item : ℕ → Task → ResultOrError → ℕ → Processor → W → Processor × W × Verdict
  on_item ref t (failure e) now p w = let (q, v) = on_error ref t (retriable e) now p in (q, w, v)
  on_item ref t (result r) now p w =
      if out_of_order t r
      then (p, w, some (some unexpected_result_index))
      else after_process ref t r now p (process_result r w)

abbrev pub put_task : ℕ → Task → Processor → Processor
put_task ref t p = record p { heap = insert ref t p.heap }

-- The start of the loop: the task is in progress, and queued.
unfoldable pub start_task : ℕ → Task → Processor → Processor
start_task ref t p = enqueue ref (record (put_task ref t p) {
  in_progress_tasks_by_id = insert t.id ref p.in_progress_tasks_by_id;
})

-- What the deferred function does: the task is no longer in progress, and its channel is drained.
unfoldable pub finish_task : ℕ → Task → Processor → Processor
finish_task ref t p =
    update_task ref (λ x. record x { result_ch = [] })
      (record p { in_progress_tasks_by_id = delete t.id p.in_progress_tasks_by_id })

-- A timer of a retry fires.
unfoldable pub fire : Processor → Processor
fire p = elim p.delayed [ [] ↦ p | ref ∷ rest ↦ enqueue ref (record p { delayed = rest }) ]

-- What happens to a task between two items: the scheduler gives it an engine.
abbrev pub given_engine : String → Task → Task
given_engine engine_id t = record t { engine_id = engine_id }

-- An item of the result channel, the time at which it is read, and the engine that the task has then.
pub record Round : Type 0 where
  pub item : ResultOrError
  pub now : ℕ
  pub engine_id : String

module _ {ℓ} {W : Type ℓ} (process_result : TaskResult → W → W × Option TaskError) where
  abbrev pub on_round : ℕ → Round → Processor → W → Option Task → Processor × W × Verdict
  on_round ref r p w none = (p, w, none)
  on_round ref r p w (some t) = on_item process_result ref t r.item r.now p w

  abbrev pub go_on :
      (Processor → W → Processor × W × Verdict) → Processor → W → Verdict → Processor × W × Verdict
  go_on next p w none = next p w
  go_on next p w (some v) = (p, w, some v)

  -- One item: the task is read through its reference.
  unfoldable pub one_round : ℕ → Round → Processor → W → Processor × W × Verdict
  one_round ref r p w =
      let p1 = update_task ref (given_engine r.engine_id) p in
      on_round ref r p1 w (lookup ref p1.heap)

  -- The loop over the items that come; it stops at the first verdict.
  unfoldable pub run_loop : ℕ → List Round → Processor → W → Processor × W × Verdict
  run_loop ref [] p w = (p, w, none)
  run_loop ref (r ∷ rs) p w = let (q, w', v) = one_round ref r p w in go_on (run_loop ref rs) q w' v
