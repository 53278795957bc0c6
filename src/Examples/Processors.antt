-- ===== src/Examples/Processors.antt =====
-- server/internal/infprocessor on small states.
use inference_manager.Base.{
  Bool, List, Option, [], add, arith, contains, false, insert, lookup, lookup-insert_self, nat_eq,
  none, refl, string_eq, true, ℕ, ◌↔◌, ◌∷◌, ◌≡◌, ◌≢◌, ◌⊎◌,
}
use inference_manager.Router.Routing.{add_or_update, get_engines_for_model, new}
use inference_manager.Router.RouteMap.{
  add_or_update_engine, get_route, model_eq, new_route_map, serve, serve_all,
}
use inference_manager.Infprocessor.Task.{
  Task, TaskError, TaskResult, chat_completion, engine_removed, failure, http_response, model,
  new_task_with_id, no_route, result, send_failed, server_sent_event, stream,
}
use inference_manager.Infprocessor.State.{
  Engine, EngineStatus, Processor, SentTask, enqueue, in_progress, new_p, tenant_engines,
}
use inference_manager.Infprocessor.Engines.{add_or_update_engine_status, remove_engine}
use inference_manager.Infprocessor.Engines.Consistency.{IsConsistent, status-IsConsistent}
use inference_manager.Router.Changes.{TenantsValid}
use inference_manager.Router.Tenants.{router-TenantsValid}
use inference_manager.Infprocessor.Results.{
  Round, can_retry, is_task_completed, on_error, on_item, one_round, retried, run_loop, start_task,
}
use inference_manager.Infprocessor.Results.Order.{InOrder, noting, run_loop-InOrder}
use inference_manager.Infprocessor.Results.Response.{
  Sink, set_runtime_latency_ms, write_all, write_all-body, write_task_result_to_http_resp_ch,
}
use inference_manager.Infprocessor.Results.Retries.{Accounted, Holds, run_loop-Accounted}
use inference_manager.Infprocessor.Schedule.{
  assign_task_to_engine, err, fatal, find_least_loaded, find_most_preferred_engine,
  get_engines_for_task, ok, returns, schedule_task, split_engines,
}
use inference_manager.Infprocessor.Schedule.Choice.{Preferred, find_most_preferred_engine-Preferred}
use inference_manager.Infprocessor.Schedule.Race.{assign_after_remove-fatal}
use inference_manager.Infprocessor.Schedule.Routable.{schedule_task-ne-fatal, schedule_task_failure}

abbrev pub status : EngineStatus
status = record {
  engine_id = "e1";
  models =
      record {
        id = "small";
        is_ready = true;
        in_progress_task_count = 0;
        gpu_allocated = 1;
        is_dynamically_loaded_lora = false;
        status_details = none;
      }
      ∷ [];
  ready = true;
  cluster_id = "c";
}

abbrev pub empty_p : Processor
empty_p = new_p (new true)

pub empty-IsConsistent : IsConsistent empty_p
unfolding new_p new lookup contains new_route_map
empty-IsConsistent = record { keyed = λ t x e h. cc h; backed = λ t x h. cc h }

-- One local engine of tenant `t1` that serves the model `small`.
abbrev pub one_engine_p : Processor
one_engine_p = add_or_update_engine_status 7 status "t1" true empty_p

pub one_engine-IsConsistent : IsConsistent one_engine_p
one_engine-IsConsistent = status-IsConsistent empty_p 7 status "t1" true empty-IsConsistent

abbrev pub chat : Task
chat = new_task_with_id "inf_1" "t1" (chat_completion "small" true) [] "" none 0

abbrev refuses : ℕ → SentTask → Bool
refuses sender t = false

one_engine-valid : TenantsValid one_engine_p.engine_router.maps_by_tenant_id
unfolding add_or_update_engine_status new_p new lookup
one_engine-valid = (router-TenantsValid (new true) "e1" "t1" ("small" ∷ []) refl tt).0

refused : schedule_task refuses 1 chat one_engine_p ≡ returns (one_engine_p, err send_failed)
unfolding schedule_task get_engines_for_task get_engines_for_model get_route model
    find_most_preferred_engine split_engines find_least_loaded assign_task_to_engine
    new_task_with_id add_or_update_engine_status add_or_update add_or_update_engine serve_all serve
    add new_p new new_route_map lookup insert in_progress
refused = refl

schedule_task_failure_example :
    ((send_failed ≡ no_route) × (one_engine_p ≡ one_engine_p)) ⊎ (send_failed ≡ send_failed)
unfolding new_task_with_id
schedule_task_failure_example =
    schedule_task_failure one_engine_p one_engine-IsConsistent refuses 1 chat one_engine_p
      send_failed one_engine-valid refl refused

schedule_task-ne-fatal_example : schedule_task refuses 1 chat one_engine_p ≢ fatal
schedule_task-ne-fatal_example =
    schedule_task-ne-fatal one_engine_p one_engine-IsConsistent refuses 1 chat

abbrev e1 : Engine
e1 = record {
  id = "e1";
  task_sender = 7;
  cluster_id = "c";
  models = status.models;
  is_local = true;
  ready = true;
  last_heartbeat = 0;
}

chosen : find_most_preferred_engine one_engine_p ("e1" ∷ []) "t1" ≡ ok e1
unfolding find_most_preferred_engine split_engines find_least_loaded add_or_update_engine_status
    lookup insert in_progress new_p new
chosen = refl

find_most_preferred_engine-Preferred_example :
    Preferred (in_progress one_engine_p) (tenant_engines one_engine_p "t1") ("e1" ∷ []) e1
find_most_preferred_engine-Preferred_example =
    find_most_preferred_engine-Preferred one_engine_p ("e1" ∷ []) "t1" chosen

assign_after_remove-fatal_example :
    ((assign_task_to_engine 1 chat "e1" one_engine_p ≡ fatal)
      ↔ (lookup "e1" (tenant_engines one_engine_p chat.tenant_id) ≡ none))
    × (assign_task_to_engine 1 chat "e1" (remove_engine "e1" chat.tenant_id one_engine_p) ≡ fatal)
assign_after_remove-fatal_example = assign_after_remove-fatal 1 chat "e1" one_engine_p

abbrev started_p : Processor
started_p = start_task 1 chat one_engine_p

started-Holds : Holds 1 started_p chat
unfolding start_task enqueue add_or_update_engine_status new_p
started-Holds = lookup-insert_self {K = ℕ} 1 chat []

abbrev event : ℕ → Bool → TaskResult
event index last = record {
  task_id = "inf_1";
  message =
      server_sent_event (record { sse_data = b'a' ∷ []; is_last_event = last; latency_ms = 5 });
  result_index = index;
}

-- An engine goes away; the next one sends two results.
abbrev rounds : List Round
rounds =
    record { item = failure engine_removed; now = 10; engine_id = "e1" }
    ∷ record { item = result (event 0 false); now = 20; engine_id = "e2" }
    ∷ record { item = result (event 1 false); now = 30; engine_id = "e2" }
    ∷ []

abbrev sink : Sink
sink = record {
  responses = [];
  body = [];
  body_open = true;
  stats = record { runtime_latency_ms = 0; runtime_time_to_first_token_ms = 0 };
}

abbrev process : TaskResult → Sink → Sink × Option TaskError
process = write_task_result_to_http_resp_ch true

waits : (run_loop process 1 rounds started_p sink).2 ≡ none
unfolding run_loop one_round on_item on_error can_retry retried is_task_completed
    write_task_result_to_http_resp_ch start_task enqueue new_task_with_id lookup insert
    add_or_update_engine_status new_p stream set_runtime_latency_ms
waits = refl

run_loop-Accounted_example : Accounted process 1 3 chat (run_loop process 1 rounds started_p sink).0
unfolding new_task_with_id
run_loop-Accounted_example =
    run_loop-Accounted process 1 rounds chat started_p sink started-Holds (omega arith) waits

run_loop-InOrder_example : InOrder 0 ((run_loop (noting process) 1 rounds started_p (sink, [])).1).1
unfolding new_task_with_id
run_loop-InOrder_example = run_loop-InOrder process 1 rounds chat started_p sink started-Holds refl

abbrev pub unavailable : TaskResult
unavailable = record {
  task_id = "inf_1";
  message =
      http_response
        (record { status_code = 503; status = ""; header = []; body = b'x' ∷ []; latency_ms = 5 });
  result_index = 0;
}

write_all-body_example :
    (write_all true (unavailable ∷ event 0 false ∷ event 1 true ∷ []) sink).body ≡ b'a' ∷ b'a' ∷ []
write_all-body_example =
    write_all-body true (unavailable ∷ event 0 false ∷ event 1 true ∷ []) sink refl
