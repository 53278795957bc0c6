-- ===== src/Examples/Engines.antt =====
-- Runs of the engine's side of a task.
use inference_manager.Base.{
  Bool, List, [], false, length, nat_eq, refl, some, string_eq, suc, true, zero, ℕ, ◌<◌, ◌∷◌, ◌≡◌,
  ◌≤◌,
}
use inference_manager.Engine.Replies.{
  EngineTask, process_task, pulled, send_response, succeeds, to_runtime,
}
use inference_manager.Engine.Replies.Sequence.{numbered, process_task-numbered, sent_results}
use inference_manager.Engine.Runtimes.{
  Attempt, RuntimeResponse, cannot_connect, reached, responds, send_http_request_to_runtime,
}
use inference_manager.Sse.RoundTrip.{encode}
use inference_manager.Engine.Replies.Relay.{always, data_of, send_response-relays}
use inference_manager.Engine.Runtimes.Attempts.{Failed, send_http_request-tried}
use inference_manager.Router.RouteMap.{model_eq}
use inference_manager.Engine.{is_ready, new_engine_processor}
use inference_manager.Engine.Ready.{engine_run, engine_run-is_ready, run_ends, run_starts}
use inference_manager.Router.Routing.{answer}

abbrev streamed : EngineTask
streamed = record { id = "inf_1"; kind = to_runtime; task_stream = true }

abbrev two_events : List (List ℕ)
two_events = (65 ∷ []) ∷ (66 ∷ 67 ∷ []) ∷ []

abbrev two_event_answer : RuntimeResponse
two_event_answer = record {
  status_code = 200;
  status = "OK";
  header = [];
  body = 65 ∷ 10 ∷ 10 ∷ 66 ∷ 67 ∷ 10 ∷ 10 ∷ [];
  read_fails = false;
  end_with_data = true;
}

-- The first replica cannot be reached.
abbrev second_answers : ℕ → Attempt
second_answers zero = record {
  addr = some "a";
  built = true;
  done = cannot_connect;
  blacklisted = true;
}
second_answers (suc n) = record {
  addr = some "b";
  built = true;
  done = responds two_event_answer;
  blacklisted = true;
}

abbrev takes : ℕ → Bool
takes n = true

process_task-numbered_example :
    numbered "inf_1" 0 (sent_results (process_task takes streamed 5 pulled second_answers)) ≡ true
process_task-numbered_example = process_task-numbered takes streamed 5 pulled second_answers

send_http_request-tried_example :
    let (addrs, answer) = send_http_request_to_runtime second_answers in
    (length addrs ≤ 3)
    × Failed second_answers 0 addrs
    × ((r : RuntimeResponse)
        → answer ≡ reached r
        → (length addrs < 3) × ((second_answers (length addrs)).done ≡ responds r))
send_http_request-tried_example = send_http_request-tried second_answers

send_response-relays_example :
    (data_of (sent_results (send_response always streamed 5 two_event_answer))
      ≡ two_event_answer.body)
    × (succeeds (send_response always streamed 5 two_event_answer) ≡ true)
unfolding encode
send_response-relays_example =
    send_response-relays streamed 5 two_event_answer two_events refl refl refl refl refl refl

-- The only runner ends with an error.
engine_run-is_ready_example :
    is_ready (
      engine_run
        (run_starts "engine_1" ∷ run_ends "engine_1" (some "connection refused") ∷ [])
        (new_engine_processor 7))
    ≡ (true, "")
engine_run-is_ready_example =
    engine_run-is_ready 7
      (run_starts "engine_1" ∷ run_ends "engine_1" (some "connection refused") ∷ [])
