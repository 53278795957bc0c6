-- ===== src/Infprocessor/Schedule.antt =====
-- How the processor chooses an engine for a task and sends it (`scheduleTask` and what it calls,
-- server/internal/infprocessor/infprocessor.go).
pub mod Least
pub mod Split
pub mod Choice
pub mod Routable
pub mod Race
use inference_manager.Base.{
  Bool, List, Option, String, [], eqb, false, if◌then◌else◌, length, lookup, ltb, min, nat_eq, none,
  not, some, string_eq, true, ℕ, ◌++◌, ◌+◌, ◌==◌, ◌∷◌,
}
use inference_manager.Infprocessor.Task.{
  Task, TaskError, engine_not_found, engine_removed, failure, model, no_engine_found, no_route,
  send_failed,
}
use inference_manager.Infprocessor.State.{
  Engine, Processor, SentTask, dequeue, in_progress, tenant_engines,
}
use inference_manager.Infprocessor.Engines.{update_task, write_result_to_task}
use inference_manager.Router.Routing.{Routed, fails, get_engines_for_model, routes}

pub data Outcome {ℓ} (A : Type ℓ) : Type ℓ where
  ok : A → Outcome A
  err : TaskError → Outcome A

abbrev pub of_routed : Routed → Outcome (List String)
of_routed (routes es) = ok es
of_routed (fails e) = err no_route

unfoldable pub get_engines_for_task : Processor → Task → Outcome (List String)
get_engines_for_task p t =
    if not (t.target_engine_id == "")
    then ok (t.target_engine_id ∷ [])
    else of_routed
        (get_engines_for_model p.engine_router (model t) t.tenant_id t.preferred_ignored_engines)

-- `numTasksByEngine[id]`.
abbrev pub num_tasks : List Task → String → ℕ
num_tasks [] id = 0
num_tasks (t ∷ ts) id = (if t.engine_id == id then 1 else 0) + num_tasks ts id

-- The loop of `findLeastLoadedEngine`; `none` is the nil pointer.
unfoldable pub least_loaded : (String → ℕ) → ℕ → Option Engine → List Engine → Option Engine
least_loaded num min best [] = best
least_loaded num min none (e ∷ es) = least_loaded num (num e.id) (some e) es
least_loaded num min (some b) (e ∷ es) =
    least_loaded num (if ltb (num e.id) min then num e.id else min)
      (some (if ltb (num e.id) min then e else b)) es

unfoldable pub find_least_loaded : List Task → List Engine → Option Engine
unfolding least_loaded
find_least_loaded tasks engines = least_loaded (num_tasks tasks) 0 none engines

-- The loop that sorts the engines into local and remote ones; `none` where one is not found.
unfoldable pub split_engines :
    List (String × Engine)
    → List String
    → List Engine
    → List Engine
    → Option (List Engine × List Engine)
split_engines engines [] local remote = some (local, remote)
split_engines engines (id ∷ ids) local remote = elim (lookup id engines) [
  | none ↦ none
  | some e ↦
      split_engines engines ids (if e.is_local then local ++ e ∷ [] else local)
        (if e.is_local then remote else remote ++ e ∷ [])
]

abbrev pub found : Option Engine → Outcome Engine
found none = err no_engine_found
found (some e) = ok e

abbrev pub prefer_local : List Task → Option (List Engine × List Engine) → Outcome Engine
prefer_local tasks none = err engine_not_found
prefer_local tasks (some (local, remote)) =
    if ltb 0 (length local)
    then found (find_least_loaded tasks local)
    else found (find_least_loaded tasks remote)

unfoldable pub find_most_preferred_engine : Processor → List String → String → Outcome Engine
find_most_preferred_engine p engine_ids tenant_id =
    let engines = tenant_engines p tenant_id in
    if eqb (length engines) 0
    then err no_engine_found
    else prefer_local (in_progress p) (split_engines engines engine_ids [] [])

-- `sync.Mutex.Unlock`: `none` is the fatal error "unlock of unlocked mutex", which ends the process.
abbrev pub unlock : Bool → Option Bool
unlock true = some false
unlock false = none

-- The result of a step that can end the process.
pub data Step {ℓ} (A : Type ℓ) : Type ℓ where
  returns : A → Step A
  fatal : Step A

-- What the deferred `Unlock` leaves of a result.
abbrev pub deferred_unlock {ℓ} : {A : Type ℓ} → Option Bool → A → Step A
deferred_unlock none a = fatal
deferred_unlock (some locked) a = elim (unlock locked) [ none ↦ fatal | some _ ↦ returns a ]

unfoldable pub assign_task_to_engine : ℕ → Task → String → Processor → Step (Outcome Processor)
assign_task_to_engine ref t engine_id p = elim (lookup engine_id (tenant_engines p t.tenant_id)) [
  | none ↦ deferred_unlock (unlock true) (err engine_removed)
  | some _ ↦
      deferred_unlock (some true) (ok (update_task ref (λ x. record x { engine_id = engine_id }) p))
]

unfoldable pub unassign_task_from_engine : ℕ → Processor → Processor
unassign_task_from_engine ref p = update_task ref (λ x. record x { engine_id = "" }) p

unfoldable pub sent_task : Task → Engine → SentTask
sent_task t e = record {
  id = t.id;
  request = t.request;
  header = t.header;
  engine_id = e.id;
  timeout_seconds = t.timeout_seconds;
}

-- `engine.taskSender.Send`; `sends` says whether a stream takes a message.
abbrev pub send : (ℕ → SentTask → Bool) → Engine → Task → Processor → Processor × Outcome (Unit {0})
send sends e t p =
    if sends e.task_sender (sent_task t e)
    then (record p { sent = (e.task_sender, sent_task t e) ∷ p.sent }, ok tt)
    else (p, err send_failed)

abbrev pub after_assign :
    (ℕ → SentTask → Bool)
    → Engine
    → Task
    → Processor
    → Step (Outcome Processor)
    → Step (Processor × Outcome (Unit {0}))
after_assign sends e t p fatal = fatal
after_assign sends e t p (returns (err x)) = returns (p, err x)
after_assign sends e t p (returns (ok q)) = returns (send sends e t q)

abbrev pub after_choice :
    (ℕ → SentTask → Bool)
    → ℕ
    → Task
    → Processor
    → Outcome Engine
    → Step (Processor × Outcome (Unit {0}))
after_choice sends ref t p (err x) = returns (p, err x)
after_choice sends ref t p (ok e) = after_assign sends e t p (assign_task_to_engine ref t e.id p)

abbrev pub after_routes :
    (ℕ → SentTask → Bool)
    → ℕ
    → Task
    → Processor
    → Outcome (List String)
    → Step (Processor × Outcome (Unit {0}))
after_routes sends ref t p (err x) = returns (p, err x)
after_routes sends ref t p (ok ids) =
    after_choice sends ref t p (find_most_preferred_engine p ids t.tenant_id)

-- `scheduleTask`, where no other goroutine takes the lock between its steps.
unfoldable pub schedule_task :
    (ℕ → SentTask → Bool) → ℕ → Task → Processor → Step (Processor × Outcome (Unit {0}))
schedule_task sends ref t p = after_routes sends ref t p (get_engines_for_task p t)

abbrev pub report_failure : Task → Step (Processor × Outcome (Unit {0})) → Step Processor
report_failure t fatal = fatal
report_failure t (returns (p, ok _)) = returns p
report_failure t (returns (p, err x)) = returns (write_result_to_task t.id (failure x) p)

abbrev pub schedule_next :
    (ℕ → SentTask → Bool) → Option (ℕ × Processor) → Step Processor → Step Processor
schedule_next sends none idle = idle
schedule_next sends (some (ref, p)) idle = elim (lookup ref p.heap) [
  | none ↦ returns p
  | some t ↦ report_failure t (schedule_task sends ref t p)
]

-- One round of `Run`. Every reference in the queue is in the heap.
unfoldable pub run_once : (ℕ → SentTask → Bool) → Processor → Step Processor
run_once sends p = schedule_next sends (dequeue p) (returns p)
