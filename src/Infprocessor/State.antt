-- ===== src/Infprocessor/State.antt =====
-- The state of the processor `P` (server/internal/infprocessor/infprocessor.go). A task is shared by
-- the queue, the map of tasks in progress and the goroutine that waits for its results: it lives in
-- `heap`, and they hold its reference.
use inference_manager.Base.{
  Bool, List, Option, String, [], lookup, nat_eq, none, or_else, some, string_eq, ℕ, ◌*◌, ◌++◌, ◌+◌,
  ◌-◌, ◌∷◌,
}
use inference_manager.Router.Routing.{Router}
use inference_manager.Infprocessor.Task.{Request, Task}

-- `v1.EngineStatus_Model_StatusDetails`.
pub record StatusDetails : Type 0 where
  pub num_ready_pods : ℕ
  pub num_total_pods : ℕ
  pub status_message : String

-- `v1.EngineStatus_Model`.
pub record EngineModel : Type 0 where
  pub id : String
  pub is_ready : Bool
  pub in_progress_task_count : ℕ
  pub gpu_allocated : ℕ
  pub is_dynamically_loaded_lora : Bool
  pub status_details : Option StatusDetails

-- `v1.EngineStatus`.
pub record EngineStatus : Type 0 where
  pub engine_id : String
  pub models : List EngineModel
  pub ready : Bool
  pub cluster_id : String

pub record Engine : Type 0 where
  pub id : String
  -- The stream to the engine, by a number of its own.
  pub task_sender : ℕ
  pub cluster_id : String
  pub models : List EngineModel
  pub is_local : Bool
  pub ready : Bool
  pub last_heartbeat : ℕ

-- `v1.Task`, as it is sent to an engine.
pub record SentTask : Type 0 where
  pub id : String
  pub request : Request
  pub header : List (String × List String)
  pub engine_id : String
  pub timeout_seconds : ℕ

pub record Processor : Type 0 where
  pub queue : List ℕ
  pub num_tasks : ℕ
  pub engine_router : Router
  -- By tenant ID and engine ID.
  pub engines : List (String × List (String × Engine))
  pub in_progress_tasks_by_id : List (String × ℕ)
  pub heap : List (ℕ × Task)
  -- Tasks that a timer puts back into the queue.
  pub delayed : List ℕ
  -- What went out, newest first.
  pub sent : List (ℕ × SentTask)
  pub task_error_count : ℕ
  pub task_timeout : ℕ
  pub retry_delay : ℕ

unfoldable pub new_p : Router → Processor
new_p router = record {
  queue = [];
  num_tasks = 0;
  engine_router = router;
  engines = [];
  in_progress_tasks_by_id = [];
  heap = [];
  delayed = [];
  sent = [];
  task_error_count = 0;
  task_timeout = 30 * 1000000000;
  retry_delay = 3 * 1000000000;
}

-- The engines of a tenant; a missing entry reads as the empty map.
abbrev pub tenant_engines : Processor → String → List (String × Engine)
tenant_engines p tenant_id = or_else (lookup tenant_id p.engines) []

-- The tasks in progress, in the order of the map.
abbrev pub deref : List (ℕ × Task) → List (String × ℕ) → List Task
deref heap [] = []
deref heap ((id, ref) ∷ m) =
    let rest = deref heap m in elim (lookup ref heap) [ none ↦ rest | some t ↦ t ∷ rest ]

unfoldable pub in_progress : Processor → List Task
in_progress p = deref p.heap p.in_progress_tasks_by_id

-- `Enqueue`. The channel holds 100 tasks; a sender waits beyond that, which a longer list stands for.
unfoldable pub enqueue : ℕ → Processor → Processor
enqueue ref p = record p { queue = p.queue ++ ref ∷ []; num_tasks = p.num_tasks + 1 }

-- `Dequeue`, where the context is not done: `none` while it waits.
unfoldable pub dequeue : Processor → Option (ℕ × Processor)
dequeue p = elim p.queue [
  | [] ↦ none
  | ref ∷ rest ↦ some (ref, record p { queue = rest; num_tasks = p.num_tasks - 1 })
]
