-- ===== src/Engine/Replies.antt =====
-- `processTask` and `sendRequestToRuntime`: the results that go to the server.
use inference_manager.Base.{
  Bool, List, Option, String, [], eqb, false, if◌then◌else◌, leb, length, ltb, nat_eq, none, not,
  some, string_eq, suc, true, ℕ, ◌++◌, ◌||◌, ◌∷◌,
}
use inference_manager.Infprocessor.Task.{
  HttpResponse, ServerSentEvent, TaskResult, http_response, server_sent_event,
}
use inference_manager.Engine.Runtimes.{
  Attempt, Reached, RuntimeResponse, not_reached, reached, send_http_request_to_runtime,
}
use inference_manager.Sse.{scan}
use inference_manager.Router.RouteMap.{model_eq}
use inference_manager.Engine.{EngineProcessor, remove_active_engine, update_last_heartbeat_time}
pub mod Sequence
pub mod Relay

pub data RequestKind : Type 0 where
  to_runtime go_away_kind heartbeat_kind unimplemented : RequestKind

pub record EngineTask : Type 0 where
  pub id : String
  pub kind : RequestKind
  pub task_stream : Bool

pub data Pulled : Type 0 where
  pulled pull_canceled pull_failed : Pulled

-- The results that were sent, oldest first, and whether the handler came to its end without an error.
pub data Sending : Type 0 where
  sending : List TaskResult → Bool → Sending

abbrev pub succeeds : Sending → Bool
succeeds (sending rs fine) = fine

-- Whether the stream takes the n-th result. A stream whose context has ended takes none.
abbrev pub Takes : Type 0
Takes = ℕ → Bool

abbrev pub http_result : EngineTask → HttpResponse → TaskResult
http_result t resp = record { task_id = t.id; message = http_response resp; result_index = 0 }

abbrev pub event_result : EngineTask → ServerSentEvent → ℕ → TaskResult
event_result t e n = record { task_id = t.id; message = server_sent_event e; result_index = n }

-- A response without a header.
abbrev pub plain : ℕ → String → List ℕ → HttpResponse
plain code status body = record {
  status_code = code;
  status = status;
  header = [];
  body = body;
  latency_ms = 0;
}

-- `http.StatusText` of the two codes.
abbrev pub status_text : ℕ → String
status_text code = if eqb code 503 then "Service Unavailable" else "Internal Server Error"

-- `sendHTTPResponse` as the only result.
abbrev pub send_only : Takes → EngineTask → HttpResponse → Bool → Sending
send_only takes t resp fine =
    if takes 0 then sending (http_result t resp ∷ []) fine else sending [] false

abbrev pub data_event : List ℕ → ServerSentEvent
data_event token = record {
  sse_data = token ++ 10 ∷ 10 ∷ [];
  is_last_event = false;
  latency_ms = 0;
}

abbrev pub last_event : ℕ → ServerSentEvent
last_event latency = record { sse_data = []; is_last_event = true; latency_ms = latency }

abbrev pub sent_before : TaskResult → Sending → Sending
sent_before r (sending rs fine) = sending (r ∷ rs) fine

-- The loop over the tokens, and the last event.
unfoldable pub send_events : Takes → EngineTask → ℕ → Bool → List (List ℕ) → ℕ → Sending
send_events takes t latency broken [] n =
    if broken
    then sending [] false
    else if takes n
    then sending (event_result t (last_event latency) n ∷ []) true
    else sending [] false
send_events takes t latency broken (token ∷ tokens) n =
    let rest = send_events takes t latency broken tokens (suc n) in
    if takes n then sent_before (event_result t (data_event token) n) rest else sending [] false

abbrev pub response_with : ℕ → RuntimeResponse → List ℕ → HttpResponse
response_with latency r body = record {
  status_code = r.status_code;
  status = r.status;
  header = r.header;
  body = body;
  latency_ms = latency;
}

-- A response that is an error goes on without its header.
abbrev pub send_error_body : Takes → EngineTask → ℕ → RuntimeResponse → Option (List ℕ) → Sending
send_error_body takes t latency r none = sending [] false
send_error_body takes t latency r (some body) =
    send_only takes t (record (response_with latency r body) { header = [] }) true

abbrev pub send_body : Takes → EngineTask → ℕ → RuntimeResponse → Option (List ℕ) → Sending
send_body takes t latency r none = sending [] false
send_body takes t latency r (some body) = send_only takes t (response_with latency r body) true

-- `io.ReadAll`.
abbrev pub read_all : RuntimeResponse → Option (List ℕ)
read_all r = if r.read_fails then none else some r.body

-- The scan of the body.
abbrev pub scanned : RuntimeResponse → List (List ℕ) × Bool
scanned r = scan r.end_with_data (suc (length r.body)) r.body

unfoldable pub send_response : Takes → EngineTask → ℕ → RuntimeResponse → Sending
unfolding send_events
send_response takes t latency r =
    if ltb r.status_code 200 || leb 400 r.status_code
    then send_error_body takes t latency r (read_all r)
    else if not t.task_stream
    then send_body takes t latency r (read_all r)
    else if not (takes 0)
    then sending [] false
    else sent_before (http_result t (response_with latency r []))
        (send_events takes t latency (r.read_fails || not (scanned r).1) (scanned r).0 1)

abbrev pub after_reached : Takes → EngineTask → ℕ → Reached → Sending
after_reached takes t latency (not_reached code) =
    send_only takes t (plain code (status_text code) []) false
after_reached takes t latency (reached r) = send_response takes t latency r

-- The body of an error, which is its text, is left out.
unfoldable pub send_request_to_runtime : Takes → EngineTask → ℕ → Pulled → (ℕ → Attempt) → Sending
unfolding send_response
send_request_to_runtime takes t latency pull_canceled world =
    send_only takes t (plain 503 (status_text 503) []) false
send_request_to_runtime takes t latency pull_failed world =
    send_only takes t (plain 500 (status_text 500) []) false
send_request_to_runtime takes t latency pulled world =
    after_reached takes t latency (send_http_request_to_runtime world).1

unfoldable pub process_task : Takes → EngineTask → ℕ → Pulled → (ℕ → Attempt) → Sending
unfolding send_request_to_runtime
process_task takes t latency pull world = elim t.kind [
  | to_runtime ↦ send_request_to_runtime takes t latency pull world
  | go_away_kind ↦ send_only takes t (plain 202 "" []) true
  | heartbeat_kind ↦ send_only takes t (plain 200 "" []) true
  | unimplemented ↦ send_only takes t (plain 501 "" []) true
]

-- What else a task does to the processor of the engine `engine_id`: a heartbeat sets the time, and a
-- go-away request whose response was sent makes `processTasks` remove the engine.
unfoldable pub after_task : ℕ → String → EngineTask → Sending → EngineProcessor → EngineProcessor
unfolding update_last_heartbeat_time remove_active_engine
after_task now engine_id t x p = elim t.kind [
  | to_runtime ↦ p
  | go_away_kind ↦ if succeeds x then remove_active_engine engine_id none p else p
  | heartbeat_kind ↦ update_last_heartbeat_time now p
  | unimplemented ↦ p
]
