-- ===== src/Taskexchanger/Receiver.antt =====
-- server/internal/taskexchanger/task_receiver.go: the reports of the local engines to another
-- server, and the tasks that come from it.
use inference_manager.Base.{
  Bool, List, Option, String, [], contains, eqb, false, if◌then◌else◌, insert, keys, length, lookup,
  ltb, map, nat_eq, none, not, or_else, some, string_eq, true, ℕ, ◌&&◌, ◌*◌, ◌++◌, ◌+◌, ◌==◌, ◌||◌,
  ◌∷◌,
}
use inference_manager.Infprocessor.Task.{TaskError, TaskResult, result_not_sent}
use inference_manager.Infprocessor.State.{
  EngineModel, EngineStatus, Processor, SentTask, StatusDetails,
}
use inference_manager.Infprocessor.Engines.{local_engines}
use inference_manager.Infprocessor.Results.{Round, Verdict}
use inference_manager.Taskexchanger.Sender.{StatusWithTenantId}
use inference_manager.Infprocessor.Schedule.{found}
use inference_manager.Infprocessor.Send.{send_and_process_task}
pub mod Change

pub record TaskReceiver : Type 0 where
  pub server_addr : String
  -- By tenant ID and engine ID: what was last reported.
  pub engine_statuses : List (String × List (String × EngineStatus))
  pub is_shutdown : Bool

unfoldable pub new_task_receiver : String → TaskReceiver
new_task_receiver server_addr = record {
  server_addr = server_addr;
  engine_statuses = [];
  is_shutdown = false;
}

-- Overwrites the ready status with that of the server.
abbrev pub with_ready : Bool → List EngineStatus → List EngineStatus
with_ready ready [] = []
with_ready ready (e ∷ es) = record e { ready = ready } ∷ with_ready ready es

abbrev pub all_with_ready :
    Bool → List (String × List EngineStatus) → List (String × List EngineStatus)
all_with_ready ready [] = []
all_with_ready ready ((t, es) ∷ m) = (t, with_ready ready es) ∷ all_with_ready ready m

-- Equality of Booleans, the negation of `!=`.
abbrev pub same_bool : Bool → Bool → Bool
same_bool true b = b
same_bool false b = not b

unfoldable pub same_model_status_details : Option StatusDetails → Option StatusDetails → Bool
same_model_status_details none none = true
same_model_status_details none (some b) = false
same_model_status_details (some a) none = false
same_model_status_details (some a) (some b) =
    eqb a.num_ready_pods b.num_ready_pods
    && eqb a.num_total_pods b.num_total_pods
    && a.status_message == b.status_message

-- The comparison of two models of one ID.
unfoldable pub same_model : EngineModel → EngineModel → Bool
unfolding same_model_status_details
same_model a b =
    same_bool a.is_ready b.is_ready
    && eqb a.in_progress_task_count b.in_progress_task_count
    && eqb a.gpu_allocated b.gpu_allocated
    && same_bool a.is_dynamically_loaded_lora b.is_dynamically_loaded_lora
    && same_model_status_details a.status_details b.status_details

-- `aModels`.
unfoldable pub models_by_id :
    List EngineModel → List (String × EngineModel) → List (String × EngineModel)
models_by_id [] m = m
models_by_id (a ∷ models) m = models_by_id models (insert a.id a m)

unfoldable pub same_models : List (String × EngineModel) → List EngineModel → Bool
unfolding same_model
same_models a_models [] = true
same_models a_models (m ∷ models) =
    let rest = same_models a_models models in
    elim (lookup m.id a_models) [ none ↦ false | some am ↦ same_model am m && rest ]

unfoldable pub same_engine_status : EngineStatus → EngineStatus → Bool
unfolding same_models models_by_id
same_engine_status a b =
    a.engine_id == b.engine_id
    && a.cluster_id == b.cluster_id
    && same_bool a.ready b.ready
    && eqb (length a.models) (length b.models)
    && same_models (models_by_id a.models []) b.models

-- The first loop of `needStatusUpdate`: an engine is new or has changed.
unfoldable pub any_changed : List (String × EngineStatus) → List EngineStatus → Bool
unfolding same_engine_status
any_changed cached [] = false
any_changed cached (e ∷ es) =
    let rest = any_changed cached es in
    elim (lookup e.engine_id cached) [ none ↦ true | some c ↦ not (same_engine_status c e) || rest ]

-- The second loop: a cached engine is no longer there. `found` is `foundIDs`.
unfoldable pub any_deleted : List String → List (String × EngineStatus) → Bool
any_deleted found [] = false
any_deleted found ((k, c) ∷ cached) = not (contains c.engine_id found) || any_deleted found cached

abbrev pub engine_ids : List EngineStatus → List String
engine_ids = map (λ e. e.engine_id)

unfoldable pub need_status_update : List EngineStatus → List (String × EngineStatus) → Bool
need_status_update es cached = any_changed cached es || any_deleted (engine_ids es) cached

unfoldable pub any_tenant_needs :
    List (String × List EngineStatus) → List (String × List (String × EngineStatus)) → Bool
any_tenant_needs [] cached = false
any_tenant_needs ((t, es) ∷ m) cached =
    need_status_update es (or_else (lookup t cached) []) || any_tenant_needs m cached

-- A tenant of the cache is no longer there.
unfoldable pub any_tenant_deleted :
    List (String × List EngineStatus) → List (String × List (String × EngineStatus)) → Bool
any_tenant_deleted m [] = false
any_tenant_deleted m ((t, _) ∷ cached) = not (contains t (keys m)) || any_tenant_deleted m cached

unfoldable pub need_status_update_for_all_tenants :
    List (String × List EngineStatus) → List (String × List (String × EngineStatus)) → Bool
need_status_update_for_all_tenants m cached =
    any_tenant_needs m cached || any_tenant_deleted m cached

abbrev pub with_tenant : String → List EngineStatus → List StatusWithTenantId
with_tenant t [] = []
with_tenant t (e ∷ es) = record { engine_status = e; tenant_id = t } ∷ with_tenant t es

abbrev pub all_with_tenant : List (String × List EngineStatus) → List StatusWithTenantId
all_with_tenant [] = []
all_with_tenant ((t, es) ∷ m) = with_tenant t es ++ all_with_tenant m

unfoldable pub by_engine_id :
    List EngineStatus → List (String × EngineStatus) → List (String × EngineStatus)
by_engine_id [] m = m
by_engine_id (e ∷ es) m = by_engine_id es (insert e.engine_id e m)

-- The new cache.
abbrev pub cache_of :
    List (String × List EngineStatus) → List (String × List (String × EngineStatus))
cache_of [] = []
cache_of ((t, es) ∷ m) = (t, by_engine_id es []) ∷ cache_of m

-- The local engines, as they are reported: not ready once the server shuts down.
abbrev pub reportable : Bool → Processor → TaskReceiver → List (String × List EngineStatus)
reportable ready p r = all_with_ready (not r.is_shutdown && ready) (local_engines p)

-- `none` where nothing needs to be sent.
unfoldable pub build_statuses :
    Bool → Processor → TaskReceiver → TaskReceiver × Option (List StatusWithTenantId)
build_statuses ready p r =
    let engines = reportable ready p r in
    if not (need_status_update_for_all_tenants engines r.engine_statuses)
    then (r, none)
    else (record r { engine_statuses = cache_of engines }, some (all_with_tenant engines))

-- The start of `sendServerStatusPeriodically`: the cache is cleared for a new stream.
unfoldable pub clear_cache : TaskReceiver → TaskReceiver
clear_cache r = record r { engine_statuses = [] }

unfoldable pub start_graceful_shutdown : TaskReceiver → TaskReceiver
start_graceful_shutdown r = record r { is_shutdown = true }

-- `processTask`: the task of another server runs here under its ID and engine, and its results go
-- back over the stream; `sends` says whether the stream takes a result. The results that went out
-- are listed.
abbrev pub forward :
    (TaskResult → Bool) → TaskResult → List TaskResult → List TaskResult × Option TaskError
forward sends r out = if sends r then (out ++ r ∷ [], none) else (out, some result_not_sent)

abbrev pub deadline_of : ℕ → ℕ → Option ℕ
deadline_of timeout_seconds now =
    if ltb 0 timeout_seconds then some (now + timeout_seconds * 1000000000) else none

unfoldable pub process_task :
    (TaskResult → Bool)
    → ℕ
    → SentTask
    → String
    → ℕ
    → List Round
    → Processor
    → Processor × List TaskResult × Verdict
process_task sends ref t tenant_id now rounds p =
    send_and_process_task (forward sends) ref t tenant_id (deadline_of t.timeout_seconds now) now
      rounds p []
