-- ===== src/Runtime/Machine.antt =====
-- `RunStateMachine` (engine/internal/runtime/manager.go): the events come one at a time, from the
-- callers of the manager and from the goroutines that wait to send one.
use inference_manager.Base.{
  List, Option, String, [], nat_eq, none, some, string_eq, suc, zero, ℕ, ◌∷◌,
}
use inference_manager.Runtime.Events.{
  ManagerEvent, delete_model, load_lora_adapter, lora_adapter_pull_status_check,
  lora_adapter_status_update, pull_model, readiness_check, reconcile_stateful_set, update_model,
}
use inference_manager.Runtime.Manager.{
  Manager, Outcome, and_then, blacklist_llm_address, get_llm_address, goes_on,
}
use inference_manager.Runtime.World.{World}
use inference_manager.Router.RouteMap.{model_eq}
use inference_manager.Runtime.Lifecycle.{
  process_delete_model_event, process_reconcile_stateful_set_event, process_update_model_event,
}
use inference_manager.Runtime.Lora.{
  process_load_lora_adapter_event, process_lora_adapter_pull_status_check_event,
  process_lora_adapter_status_update_event,
}
use inference_manager.Runtime.Pull.{process_pull_model_event}
use inference_manager.Runtime.Readiness.{process_readiness_check_event}
pub mod Accounts
pub mod Settled
pub mod Readied
pub mod Faults

unfoldable pub process : World → ManagerEvent → Manager → Outcome
process w (pull_model e) m = process_pull_model_event w e m
process w (delete_model id ch) m = process_delete_model_event w id ch m
process w (update_model id ch) m = process_update_model_event w id ch m
process w (reconcile_stateful_set name ch) m = process_reconcile_stateful_set_event w name ch m
process w (readiness_check e) m = process_readiness_check_event w e m
process w (lora_adapter_pull_status_check e) m = process_lora_adapter_pull_status_check_event w e m
process w (lora_adapter_status_update u ch) m = process_lora_adapter_status_update_event w u ch m
process w (load_lora_adapter id pod ch) m = process_load_lora_adapter_event w id pod ch m

-- The goroutine at a place sends its event, if there is one.
unfoldable pub take_spawned : ℕ → List ManagerEvent → Option (ManagerEvent × List ManagerEvent)
take_spawned i [] = none
take_spawned zero (e ∷ es) = some (e, es)
take_spawned (suc i) (e ∷ es) = elim (take_spawned i es) [
  | none ↦ none
  | some x ↦ some (x.0, e ∷ x.1)
]

-- An event of a caller, or that of a goroutine, with the answers that its handler gets; or a call
-- of `GetLLMAddress` or `BlacklistLLMAddress` from another goroutine.
pub data Input : Type 0 where
  from_caller : World → ManagerEvent → Input
  from_goroutine : World → ℕ → Input
  gets_address : String → ℕ → Input
  blacklists : String → String → ℕ → Input

unfoldable pub step : Input → Manager → Outcome
unfolding process take_spawned get_llm_address blacklist_llm_address
step (from_caller w e) m = process w e m
step (from_goroutine w i) m = elim (take_spawned i m.spawned) [
  | none ↦ goes_on m
  | some x ↦ process w x.0 (record m { spawned = x.1 })
]
step (gets_address model_id now) m = goes_on (get_llm_address model_id now m).0
step (blacklists model_id address now) m = goes_on (blacklist_llm_address model_id address now m).0

unfoldable pub run_state_machine : List Input → Manager → Outcome
run_state_machine [] m = goes_on m
run_state_machine (i ∷ is) m = and_then (step i m) (run_state_machine is)
