-- ===== src/Infprocessor/Task.antt =====
-- server/internal/infprocessor/task.go, and the messages of api/v1/inference_server_worker.proto
-- that a task carries.
use inference_manager.Base.{
  Bool, List, Option, String, [], eqb, false, if◌then◌else◌, nat_eq, none, some, string_eq, ℕ, ◌-◌,
  ◌/◌,
}

-- The request of a task. Of each kind only what the processor reads is kept.
pub data Request : Type 0 where
  chat_completion : String → Bool → Request
  embedding audio_transcription model_response tokenize_request : String → Request
  go_away heartbeat unset_request : Request

pub record HttpResponse : Type 0 where
  pub status_code : ℕ
  pub status : String
  pub header : List (String × List String)
  pub body : List ℕ
  pub latency_ms : ℕ

pub record ServerSentEvent : Type 0 where
  pub sse_data : List ℕ
  pub is_last_event : Bool
  pub latency_ms : ℕ

pub data Message : Type 0 where
  http_response : HttpResponse → Message
  server_sent_event : ServerSentEvent → Message
  unset_message : Message

pub record TaskResult : Type 0 where
  pub task_id : String
  pub message : Message
  pub result_index : ℕ

-- The errors of the processor, one for each place that makes one.
pub data TaskError : Type 0 where
  retriable : TaskError → TaskError
  engine_unavailable engine_failed unexpected_message unexpected_result_index : TaskError
  no_engine_found engine_not_found engine_removed no_route send_failed : TaskError
  context_done result_not_sent : TaskError

pub data ResultOrError : Type 0 where
  result : TaskResult → ResultOrError
  failure : TaskError → ResultOrError

pub record Task : Type 0 where
  pub id : String
  pub tenant_id : String
  pub request : Request
  pub header : List (String × List String)
  -- The buffered channel of results, oldest first.
  pub result_ch : List ResultOrError
  pub engine_id : String
  pub target_engine_id : String
  pub timeout_seconds : ℕ
  -- Times are nanoseconds.
  pub created_at : ℕ
  pub preferred_ignored_engines : List (String × Bool)
  pub retry_count : ℕ
  pub next_result_index : ℕ

abbrev pub task_result_buffer_size : ℕ
task_result_buffer_size = 100

abbrev pub task_queue_size : ℕ
task_queue_size = 100

abbrev pub second : ℕ
second = 1000000000

-- Whole seconds to the deadline, and 1 where less is left; 0 stands for no deadline.
unfoldable pub timeout_of : Option ℕ → ℕ → ℕ
timeout_of none now = 0
timeout_of (some deadline) now =
    let seconds = (deadline - now) / second in if eqb seconds 0 then 1 else seconds

unfoldable pub new_task_with_id :
    String → String → Request → List (String × List String) → String → Option ℕ → ℕ → Task
new_task_with_id id tenant_id request header target_engine_id deadline now = record {
  id = id;
  tenant_id = tenant_id;
  request = request;
  header = header;
  result_ch = [];
  engine_id = "";
  target_engine_id = target_engine_id;
  timeout_seconds = timeout_of deadline now;
  created_at = now;
  preferred_ignored_engines = [];
  retry_count = 0;
  next_result_index = 0;
}

abbrev pub requested_model : Request → String
requested_model (chat_completion model stream) = model
requested_model (embedding model) = model
requested_model (audio_transcription model) = model
requested_model (model_response model) = model
requested_model (tokenize_request model) = model
requested_model _ = ""

unfoldable pub model : Task → String
model t = requested_model t.request

abbrev pub streams : Request → Bool
streams (chat_completion model stream) = stream
streams _ = false

unfoldable pub stream : Task → Bool
stream t = streams t.request
