-- ===== src/Examples/Exchange.antt =====
-- server/internal/taskexchanger on small states.
use inference_manager.Base.{
  Bool-cases, List, String, [], contains, false, inl, inr, insert, lookup, nat_eq, none, not, refl,
  string_eq, subst, true, ℕ, ◌&&◌, ◌+◌, ◌==◌, ◌||◌, ◌∷◌, ◌≡◌,
}
use inference_manager.Infprocessor.History.{engine_goes, engine_reports}
use inference_manager.Router.Routing.{new}
use inference_manager.Taskexchanger.Exchanger.History.{
  ServerEvent, here, new_e-IsInStep, see_all, server_goes, server_reports,
}
use inference_manager.Infprocessor.State.{new_p}
use inference_manager.Infprocessor.Engines.{add_or_update_engine_status, local_engines}
use inference_manager.Taskexchanger.Sender.{StatusWithTenantId, TaskSender, add_or_update_engines}
use inference_manager.Taskexchanger.Sender.Removal.{
  Keyed, active_list, add_or_update_engines-has_engine, has_engine, lists, reports, reports_id,
}
use inference_manager.Taskexchanger.Receiver.{
  TaskReceiver, any_changed, any_deleted, any_tenant_deleted, any_tenant_needs, build_statuses,
  by_engine_id, models_by_id, need_status_update, need_status_update_for_all_tenants,
  new_task_receiver, reportable, same_engine_status, same_model, same_model_status_details,
  same_models,
}
use inference_manager.Taskexchanger.Receiver.Change.{AllUnchanged, build_statuses-skipped}
use inference_manager.Taskexchanger.Exchanger.{Exchanger, Pod, new_e}
use inference_manager.Taskexchanger.Exchanger.Servers.{IsInStep}
use inference_manager.Infprocessor.Send.Broadcast.{some-inj}
use inference_manager.Examples.Processors.{empty-IsConsistent, empty_p, one_engine_p, status}
use inference_manager.Router.RouteMap.{model_eq}

abbrev stream_of : ℕ → String → ℕ
stream_of srv t = srv + 100

abbrev report : List StatusWithTenantId
report = record { engine_status = status; tenant_id = "t1" } ∷ []

-- The other server had an engine `e0`, and now reports `e1` alone.
abbrev sender : TaskSender
sender = record {
  task_sender_srv = 5;
  active_engines = ("e0", record { engine_id = "e0"; tenant_id = "t1" }) ∷ [];
}

add_or_update_engines-has_engine_example :
    has_engine (add_or_update_engines stream_of report sender empty_p).1 "t1" "e1" ≡ (
      not (lists "t1" "e1" (active_list sender.active_engines) && not (reports_id "e1" report))
      && (reports "t1" "e1" report || has_engine empty_p "t1" "e1"))
add_or_update_engines-has_engine_example =
    add_or_update_engines-has_engine stream_of report sender empty_p (refl, tt) "t1" "e1"

abbrev exchanger : Exchanger
exchanger = record (new_e empty_p "server-0" "8084") { task_senders = ("server-1", sender) ∷ [] }

exchanger-IsInStep : IsInStep exchanger
unfolding new_e lookup
exchanger-IsInStep = record {
  consistent = empty-IsConsistent;
  keyed = λ n s h. elim (Bool-cases ("server-1" == n)) [
    | inl c ↦ subst (λ x. Keyed x.active_engines) (some-inj (rw c at h)) (refl, tt)
    | inr c ↦ absurd (cc (rw c at h))
  ];
}

abbrev told : TaskReceiver
told = (build_statuses true one_engine_p (new_task_receiver "10.0.0.1:8084")).0

-- A second report with nothing new is skipped.
nothing_new : (build_statuses true one_engine_p told).1 ≡ none
unfolding build_statuses new_task_receiver need_status_update_for_all_tenants any_tenant_needs
    need_status_update any_changed any_deleted any_tenant_deleted by_engine_id same_engine_status
    same_models models_by_id same_model same_model_status_details local_engines lookup insert
    contains add_or_update_engine_status new_p
nothing_new = refl

build_statuses-skipped_example :
    AllUnchanged told.engine_statuses (reportable true one_engine_p told)
    × ((build_statuses true one_engine_p told).0 ≡ told)
build_statuses-skipped_example = build_statuses-skipped true one_engine_p told nothing_new

abbrev other_pod : Pod
other_pod = record { name = "server-2"; pod_ip = "10.0.0.2"; is_deleted = false }

-- A server reports, an engine connects here, the report changes, and both go.
abbrev happened : List ServerEvent
happened =
    server_reports 5 "server-1" report
    ∷ here (engine_reports 7 (record status { engine_id = "e2" }) "t1" true)
    ∷ server_reports 5 "server-1" []
    ∷ here (engine_goes "e2" "t1")
    ∷ server_goes "server-1"
    ∷ []

new_e-IsInStep_example :
    IsInStep (see_all stream_of happened (new_e (new_p (new true)) "server-0" "8084"))
new_e-IsInStep_example = new_e-IsInStep stream_of true "server-0" "8084" happened
