-- ===== src/Taskexchanger/Sender.antt =====
-- server/internal/taskexchanger/task_sender.go: the engines of another server, as it reports them.
use inference_manager.Base.{
  List, String, [], false, insert, lookup, nat_eq, none, some, string_eq, ℕ, ◌∷◌,
}
use inference_manager.Infprocessor.State.{EngineStatus, Processor, SentTask}
use inference_manager.Infprocessor.Engines.{add_or_update_engine_status, remove_engine}
pub mod Removal

-- `v1.ServerStatus_EngineStatusWithTenantID`.
pub record StatusWithTenantId : Type 0 where
  pub engine_status : EngineStatus
  pub tenant_id : String

pub record ActiveEngineStatus : Type 0 where
  pub engine_id : String
  pub tenant_id : String

pub record TaskSender : Type 0 where
  -- The stream to the other server, by a number of its own.
  pub task_sender_srv : ℕ
  pub active_engines : List (String × ActiveEngineStatus)

unfoldable pub new_task_sender : ℕ → TaskSender
new_task_sender srv = record { task_sender_srv = srv; active_engines = [] }

-- The tasks of a tenant go over the stream of the server with the tenant's ID: `sender_for` numbers
-- the pairs of a stream and a tenant.
module _ (sender_for : ℕ → String → ℕ) where
  -- The first loop: every reported engine is registered as a remote one.
  unfoldable pub register : ℕ → List StatusWithTenantId → Processor → Processor
  register srv [] p = p
  register srv (s ∷ statuses) p =
      register srv statuses (
        add_or_update_engine_status (sender_for srv s.tenant_id) s.engine_status s.tenant_id false
          p)

-- The map of the reported engines.
unfoldable pub reported_engines :
    List StatusWithTenantId
    → List (String × ActiveEngineStatus)
    → List (String × ActiveEngineStatus)
reported_engines [] engines = engines
reported_engines (s ∷ statuses) engines = reported_engines statuses (
    insert s.engine_status.engine_id
      (record { engine_id = s.engine_status.engine_id; tenant_id = s.tenant_id }) engines)

-- The active engines that are not in the report.
unfoldable pub to_delete :
    List (String × ActiveEngineStatus)
    → List (String × ActiveEngineStatus)
    → List ActiveEngineStatus
to_delete engines [] = []
to_delete engines ((id, a) ∷ active) =
    let rest = to_delete engines active in
    elim (lookup id engines) [ none ↦ a ∷ rest | some _ ↦ rest ]

unfoldable pub remove_engines : List ActiveEngineStatus → Processor → Processor
remove_engines [] p = p
remove_engines (a ∷ rest) p = remove_engines rest (remove_engine a.engine_id a.tenant_id p)

module _ (sender_for : ℕ → String → ℕ) where
  unfoldable pub add_or_update_engines :
      List StatusWithTenantId → TaskSender → Processor → TaskSender × Processor
  add_or_update_engines statuses s p =
      let engines = reported_engines statuses [] in
      (
        record s { active_engines = engines },
        remove_engines (to_delete engines s.active_engines)
            (register sender_for s.task_sender_srv statuses p),
      )

  unfoldable pub remove_all_engines : TaskSender → Processor → TaskSender × Processor
  remove_all_engines s p = add_or_update_engines [] s p

-- `taskSenderForTenant.Send`: the task goes out with the ID of the tenant.
pub record ProcessTasksInternalResponse : Type 0 where
  pub new_task : SentTask
  pub tenant_id : String

unfoldable pub send_for_tenant : String → SentTask → ProcessTasksInternalResponse
send_for_tenant tenant_id task = record { new_task = task; tenant_id = tenant_id }
