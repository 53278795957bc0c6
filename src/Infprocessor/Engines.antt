-- ===== src/Infprocessor/Engines.antt =====
-- The engines of the processor: how they come, report and go, and how results reach a task
-- (server/internal/infprocessor/infprocessor.go).
pub mod Consistency
use inference_manager.Base.{
  Bool, List, Option, String, [], delete, false, if◌then◌else◌, insert, length, lookup, ltb, nat_eq,
  none, not, or_else, some, string_eq, true, ℕ, ◌++◌, ◌+◌, ◌-◌, ◌==◌, ◌∷◌,
}
use inference_manager.Router.Routing.{add_or_update, delete_from}
use inference_manager.Infprocessor.Task.{
  ResultOrError, Task, TaskResult, engine_removed, failure, result, task_result_buffer_size,
}
use inference_manager.Infprocessor.State.{
  Engine, EngineModel, EngineStatus, Processor, in_progress, tenant_engines,
}

-- `writeResultToTask`. A result for a task that is gone, or whose buffer is full, is dropped.
unfoldable pub write_to_channel : ResultOrError → Task → Task
write_to_channel r t =
    if ltb (length t.result_ch) task_result_buffer_size
    then record t { result_ch = t.result_ch ++ r ∷ [] }
    else t

abbrev pub update_found : ℕ → (Task → Task) → Processor → Option Task → Processor
update_found ref f p none = p
update_found ref f p (some t) = record p { heap = insert ref (f t) p.heap }

-- A write through the pointer `ref`.
abbrev pub update_task : ℕ → (Task → Task) → Processor → Processor
update_task ref f p = update_found ref f p (lookup ref p.heap)

unfoldable pub write_result_to_task : String → ResultOrError → Processor → Processor
unfolding write_to_channel
write_result_to_task task_id r p = elim (lookup task_id p.in_progress_tasks_by_id) [
  | none ↦ p
  | some ref ↦ update_task ref (write_to_channel r) p
]

unfoldable pub process_task_result : TaskResult → Processor → Processor
process_task_result r p = write_result_to_task r.task_id (result r) p

abbrev pub ready_ids : List EngineModel → List String
ready_ids [] = []
ready_ids (m ∷ ms) = if m.is_ready then m.id ∷ ready_ids ms else ready_ids ms

-- The entry of an engine that reports for the first time.
abbrev pub fresh_engine : ℕ → EngineStatus → Engine
fresh_engine task_sender status = record {
  id = status.engine_id;
  task_sender = task_sender;
  cluster_id = status.cluster_id;
  models = [];
  is_local = false;
  ready = false;
  last_heartbeat = 0;
}

abbrev pub reported : Engine → ℕ → EngineStatus → Bool → Engine
reported e task_sender status is_local = record e {
  models = status.models;
  task_sender = task_sender;
  is_local = is_local;
  ready = status.ready;
}

abbrev pub current_engine : Processor → ℕ → EngineStatus → String → Engine
current_engine p task_sender status tenant_id =
    or_else (lookup status.engine_id (tenant_engines p tenant_id)) (fresh_engine task_sender status)

unfoldable pub add_or_update_engine_status :
    ℕ → EngineStatus → String → Bool → Processor → Processor
add_or_update_engine_status task_sender status tenant_id is_local p =
    let e = reported (current_engine p task_sender status tenant_id) task_sender status is_local in
    record p {
      engines = insert tenant_id (insert status.engine_id e (tenant_engines p tenant_id)) p.engines;
      engine_router =
          if status.ready
          then add_or_update p.engine_router e.id tenant_id (ready_ids e.models)
          else delete_from p.engine_router status.engine_id tenant_id;
    }

-- The tasks in progress that were sent to an engine.
abbrev pub tasks_of : String → List Task → List String
tasks_of engine_id [] = []
tasks_of engine_id (t ∷ ts) =
    if t.engine_id == engine_id then t.id ∷ tasks_of engine_id ts else tasks_of engine_id ts

pub cancel_all : List String → Processor → Processor
cancel_all [] p = p
cancel_all (id ∷ ids) p = cancel_all ids (write_result_to_task id (failure engine_removed) p)

-- The part of `RemoveEngine` under the lock.
unfoldable pub forget_engine : String → String → Processor → Processor
forget_engine engine_id tenant_id p = elim (lookup tenant_id p.engines) [
  | none ↦ p
  | some es ↦ record p {
    engine_router = delete_from p.engine_router engine_id tenant_id;
    engines = insert tenant_id (delete engine_id es) p.engines;
  }
]

unfoldable pub remove_engine : String → String → Processor → Processor
unfolding forget_engine
remove_engine engine_id tenant_id p =
    cancel_all (tasks_of engine_id (in_progress p)) (forget_engine engine_id tenant_id p)

-- `updateLastEngineHeartbeat`: the first tenant that has the engine; `none` where none has it.
abbrev pub beat : ℕ → Engine → Engine
beat now e = record e { last_heartbeat = now }

unfoldable pub update_heartbeat :
    String
    → ℕ
    → List (String × List (String × Engine))
    → Option (List (String × List (String × Engine)))
update_heartbeat engine_id now [] = none
update_heartbeat engine_id now ((t, es) ∷ m) =
    let rest = update_heartbeat engine_id now m in
    elim (lookup engine_id es) [
      | none ↦ elim rest [ none ↦ none | some m' ↦ some ((t, es) ∷ m') ]
      | some e ↦ some ((t, insert engine_id (beat now e) es) ∷ m)
    ]

unfoldable pub update_last_engine_heartbeat : String → ℕ → Processor → Option Processor
unfolding update_heartbeat
update_last_engine_heartbeat engine_id now p = elim (update_heartbeat engine_id now p.engines) [
  | none ↦ none
  | some engines ↦ some (record p { engines = engines })
]

abbrev pub local_statuses : List (String × Engine) → List EngineStatus
local_statuses [] = []
local_statuses ((k, e) ∷ es) =
    if not e.is_local
    then local_statuses es
    else record { engine_id = e.id; models = e.models; ready = true; cluster_id = e.cluster_id }
      ∷ local_statuses es

-- `LocalEngines`: the engines connected here, by tenant. They are all reported as ready.
abbrev pub local_of_tenants :
    List (String × List (String × Engine)) → List (String × List EngineStatus)
local_of_tenants [] = []
local_of_tenants ((t, es) ∷ m) = (t, local_statuses es) ∷ local_of_tenants m

unfoldable pub local_engines : Processor → List (String × List EngineStatus)
local_engines p = local_of_tenants p.engines

unfoldable pub num_queued_tasks : Processor → ℕ
num_queued_tasks p = p.num_tasks

unfoldable pub num_in_progress_tasks : Processor → ℕ
num_in_progress_tasks p = length p.in_progress_tasks_by_id

abbrev pub longest : ℕ → ℕ → List Task → ℕ
longest now d [] = d
longest now d (t ∷ ts) =
    longest now (if ltb d (now - t.created_at) then now - t.created_at else d) ts

-- `MaxInProgressTaskDuration`, on a clock that does not run backwards.
unfoldable pub max_in_progress_task_duration : ℕ → Processor → ℕ
max_in_progress_task_duration now p = longest now 0 (in_progress p)

abbrev pub num_by_tenant :
    (List (String × Engine) → ℕ) → List (String × List (String × Engine)) → List (String × ℕ)
num_by_tenant count [] = []
num_by_tenant count ((t, es) ∷ m) = (t, count es) ∷ num_by_tenant count m

unfoldable pub num_engines_by_tenant_id : Processor → List (String × ℕ)
num_engines_by_tenant_id p = num_by_tenant length p.engines

abbrev pub num_local : List (String × Engine) → ℕ
num_local [] = 0
num_local ((k, e) ∷ es) = if e.is_local then num_local es + 1 else num_local es

unfoldable pub num_local_engines_by_tenant_id : Processor → List (String × ℕ)
num_local_engines_by_tenant_id p = num_by_tenant num_local p.engines
