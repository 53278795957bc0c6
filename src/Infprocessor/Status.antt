-- ===== src/Infprocessor/Status.antt =====
-- The status of the processor as the admin page shows it (`DumpTenantStatus`, `DumpStatus` and
-- `LastEngineHeartbeats`, server/internal/infprocessor/infprocessor.go).
use Prim.Native.String.{compare}
use Prim.Native.Nat.{Ordering}
use inference_manager.Base.{
  Bool, List, String, [], false, if◌then◌else◌, insert, lookup, map, map_values, nat_eq, or_else,
  string_eq, ℕ, ◌++◌, ◌+◌, ◌==◌, ◌∷◌,
}
use inference_manager.Infprocessor.Task.{Task, model}
use inference_manager.Infprocessor.State.{
  Engine, EngineModel, Processor, in_progress, tenant_engines,
}
pub mod Tenant

pub record TaskStatus : Type 0 where
  pub id : String
  pub model_id : String

-- The type `EngineStatus` of infprocessor.go; the reports of the engines have another of this name.
pub record ShownEngine : Type 0 where
  pub tasks : List TaskStatus
  pub is_local : Bool
  pub ready : Bool
  pub models : List EngineModel
  pub cluster_id : String

pub record TenantStatus : Type 0 where
  pub engines : List (String × ShownEngine)

pub record Status : Type 0 where
  pub tenants : List (String × TenantStatus)

-- `&EngineStatus{}`.
abbrev pub no_status : ShownEngine
no_status = record { tasks = []; is_local = false; ready = false; models = []; cluster_id = "" }

unfoldable pub new_engine_status : Engine → ShownEngine
new_engine_status e = record {
  tasks = [];
  is_local = e.is_local;
  ready = e.ready;
  models = e.models;
  cluster_id = e.cluster_id;
}

-- A fresh map with the keys of another one.
unfoldable pub shown_engines : List (String × Engine) → List (String × ShownEngine)
unfolding new_engine_status
shown_engines [] = []
shown_engines ((id, e) ∷ es) = (id, new_engine_status e) ∷ shown_engines es

unfoldable pub shown_tenants : List (String × List (String × Engine)) → List (String × TenantStatus)
unfolding shown_engines
shown_tenants [] = []
shown_tenants ((tenant_id, es) ∷ m) =
    (tenant_id, record { engines = shown_engines es }) ∷ shown_tenants m

-- A task is appended to the tasks of its engine; an engine that is not there gets an empty status.
unfoldable pub show_task : Task → TenantStatus → TenantStatus
unfolding model
show_task t s =
    let e = or_else (lookup t.engine_id s.engines) no_status in
    record {
      engines =
          insert t.engine_id
            (record e { tasks = e.tasks ++ record { id = t.id; model_id = model t } ∷ [] })
            s.engines;
    }

-- `tasksByEnginesAndModelIDs`.
abbrev pub Counts : Type 0
Counts = List (String × List (String × ℕ))

-- `em[modelID]++`.
abbrev pub count_model : String → List (String × ℕ) → List (String × ℕ)
count_model model_id em = insert model_id (or_else (lookup model_id em) 0 + 1) em

unfoldable pub count_task : Task → Counts → Counts
unfolding model
count_task t c = insert t.engine_id (count_model (model t) (or_else (lookup t.engine_id c) [])) c

-- The loop of `DumpTenantStatus` over the tasks in progress.
unfoldable pub show_tenant_tasks :
    String → List Task → TenantStatus → Counts → TenantStatus × Counts
show_tenant_tasks tenant_id [] s c = (s, c)
show_tenant_tasks tenant_id (t ∷ ts) s c =
    let own = t.tenant_id == tenant_id in
    show_tenant_tasks tenant_id ts (if own then show_task t s else s)
      (if own then count_task t c else c)

-- The loop of `DumpStatus` over the tasks in progress.
unfoldable pub show_tasks :
    List Task → List (String × TenantStatus) → Counts → List (String × TenantStatus) × Counts
show_tasks [] m c = (m, c)
show_tasks (t ∷ ts) m c =
    let s = or_else (lookup t.tenant_id m) (record { engines = [] }) in
    show_tasks ts (insert t.tenant_id (show_task t s) m) (count_task t c)

-- `sort.Slice` by a text.
abbrev pub insert_sorted {ℓ} : {A : Type ℓ} → (A → String) → A → List A → List A
insert_sorted key x [] = x ∷ []
insert_sorted key x (y ∷ ys) =
    let rest = insert_sorted key x ys in
    elim (compare (key y) (key x)) [ Ordering.lt ↦ y ∷ rest | _ ↦ x ∷ y ∷ ys ]

abbrev pub sort_slice {ℓ} : {A : Type ℓ} → (A → String) → List A → List A
sort_slice key [] = []
sort_slice key (x ∷ xs) = insert_sorted key x (sort_slice key xs)

abbrev pub counted : List (String × ℕ) → EngineModel → EngineModel
counted em m = record m { in_progress_task_count = or_else (lookup m.id em) 0 }

-- The last loop: models and tasks in order, and the number of tasks of each model.
unfoldable pub finish_engine : Counts → String → ShownEngine → ShownEngine
finish_engine c id e = record e {
  models = map (counted (or_else (lookup id c) [])) (sort_slice (λ m. m.id) e.models);
  tasks = sort_slice (λ t. t.id) e.tasks;
}

unfoldable pub finish_engines : Counts → List (String × ShownEngine) → List (String × ShownEngine)
unfolding finish_engine
finish_engines c [] = []
finish_engines c ((id, e) ∷ es) = (id, finish_engine c id e) ∷ finish_engines c es

abbrev pub finish_tenant : Counts → TenantStatus → TenantStatus
finish_tenant c s = record { engines = finish_engines c s.engines }

unfoldable pub dump_tenant_status : String → Processor → TenantStatus
dump_tenant_status tenant_id p =
    let (s, c) =
      show_tenant_tasks tenant_id (in_progress p)
        (record { engines = shown_engines (tenant_engines p tenant_id) }) [] in
    finish_tenant c s

unfoldable pub dump_status : Processor → Status
dump_status p =
    let (m, c) = show_tasks (in_progress p) (shown_tenants p.engines) [] in
    record { tenants = map_values (finish_tenant c) m }

abbrev pub beats_of : List (String × Engine) → List (String × ℕ) → List (String × ℕ)
beats_of [] m = m
beats_of ((k, e) ∷ es) m = beats_of es (insert e.id e.last_heartbeat m)

-- `LastEngineHeartbeats`.
abbrev pub beats_of_tenants :
    List (String × List (String × Engine)) → List (String × ℕ) → List (String × ℕ)
beats_of_tenants [] m = m
beats_of_tenants ((t, es) ∷ engines) m = beats_of_tenants engines (beats_of es m)

unfoldable pub last_engine_heartbeats : Processor → List (String × ℕ)
last_engine_heartbeats p = beats_of_tenants p.engines []
