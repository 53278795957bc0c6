-- ===== src/Examples/Sends.antt =====
-- Tasks that are sent and answered, heartbeats, and the status pages, on small states.
use inference_manager.Base.{
  List, Option, String, [], contains, if◌then◌else◌, inl, inr, insert, lookup, nat_eq, none,
  or_else, refl, some, string_eq, true, ◌==◌, ◌∷◌, ◌≡◌,
}
use inference_manager.Infprocessor.History.{
  Operation, engine_goes, engine_reports, engines_beat, history, new_p-InStep,
}
use inference_manager.Router.Routing.{new}
use inference_manager.Router.Changes.{TenantsValid}
use inference_manager.Infprocessor.Task.{
  Task, TaskError, TaskResult, embedding, engine_not_found, http_response, new_task_with_id, result,
  stream,
}
use inference_manager.Infprocessor.State.{Processor, enqueue, in_progress, new_p}
use inference_manager.Infprocessor.Engines.{add_or_update_engine_status}
use inference_manager.Infprocessor.Engines.Consistency.{IsConsistent}
use inference_manager.Infprocessor.Results.{Round, start_task}
use inference_manager.Infprocessor.Send.{loop_of, send_task}
use inference_manager.Infprocessor.Send.Single.{Answered, send_task-Answered}
use inference_manager.Infprocessor.Status.{dump_status, dump_tenant_status}
use inference_manager.Infprocessor.Status.Tenant.{dump_status-tenant}
use inference_manager.Examples.Processors.{chat, one_engine_p, status, unavailable}
use inference_manager.Router.RouteMap.{model_eq}

abbrev embed : Task
embed = new_task_with_id "inf_2" "t1" (embedding "small") [] "" (some 500) 0

abbrev whole : TaskResult
whole = record {
  task_id = "inf_2";
  message =
      http_response (record {
        status_code = 200;
        status = "OK";
        header = [];
        body = b'x' ∷ [];
        latency_ms = 5;
      });
  result_index = 0;
}

-- The engine is away at first; then it answers.
abbrev two_rounds : List Round
two_rounds =
    record { item = result unavailable; now = 10; engine_id = "e1" }
    ∷ record { item = result whole; now = 20; engine_id = "e1" }
    ∷ []

send_task-Answered_example :
    Answered
      (loop_of 2 embed two_rounds one_engine_p).1
      (loop_of 2 embed two_rounds one_engine_p).2
      (send_task 2 embed two_rounds one_engine_p).1
unfolding new_task_with_id stream
send_task-Answered_example =
    send_task-Answered 2 embed two_rounds one_engine_p refl (refl, (refl, tt))

abbrev answers : String × String → Option TaskError
answers x = if x.1 == "e1" then none else some engine_not_found

-- A task of `t1` on its engine, and one of `t2` on an engine of another ID.
abbrev busy_p : Processor
busy_p =
    start_task 2
      (record (new_task_with_id "inf_3" "t2" (embedding "small") [] "" none 0) { engine_id = "e2" })
      (start_task 1 (record chat { engine_id = "e1" }) one_engine_p)

dump_status-tenant_example :
    lookup "t1" (dump_status busy_p).tenants ≡ some (dump_tenant_status "t1" busy_p)
unfolding start_task enqueue add_or_update_engine_status new_p insert lookup in_progress
    new_task_with_id contains
dump_status-tenant_example =
    dump_status-tenant busy_p "t1" (or_else (lookup "t1" busy_p.engines) []) refl
      (inl refl, (inr refl, tt))

-- An engine reports, is heard of, and goes.
abbrev happened : List Operation
happened = engine_reports 7 status "t1" true ∷ engines_beat answers 40 ∷ engine_goes "e1" "t1" ∷ []

new_p-InStep_example :
    IsConsistent (history happened (new_p (new true)))
    × TenantsValid (history happened (new_p (new true))).engine_router.maps_by_tenant_id
new_p-InStep_example = new_p-InStep true happened refl
