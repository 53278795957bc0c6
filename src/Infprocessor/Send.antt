-- ===== src/Infprocessor/Send.antt =====
-- How the handlers send a task and how the server sends one to its engines (`sendTask`,
-- `sendTaskToEngines` and their callers, server/internal/infprocessor/infprocessor.go). The IDs of
-- new tasks come from a generator of the common library: they are arguments.
use inference_manager.Base.{
  Bool, List, Option, String, [], if◌then◌else◌, map, nat_eq, none, not, or_else, some, string_eq,
  true, ℕ, ◌++◌, ◌∷◌,
}
use inference_manager.Infprocessor.Task.{
  Request, Task, TaskError, TaskResult, audio_transcription, chat_completion, embedding, model,
  model_response, new_task_with_id, stream, tokenize_request,
}
use inference_manager.Infprocessor.State.{Engine, Processor, SentTask}
use inference_manager.Infprocessor.Engines.{update_last_engine_heartbeat}
use inference_manager.Infprocessor.Results.{Round, Verdict, finish_task, run_loop, start_task}
use inference_manager.Infprocessor.Results.Response.{
  ProcessingStats, Response, Sink, write_task_result_to_http_resp_ch,
}
pub mod Single
pub mod Broadcast

-- What the caller of `sendTask` gets; it waits while neither channel has a value.
pub data Answer : Type 0 where
  responded : Response → ProcessingStats → Answer
  failed : TaskError → Answer
  waiting : Answer

abbrev pub new_sink : Sink
new_sink = record {
  responses = [];
  body = [];
  body_open = true;
  stats = record { runtime_latency_ms = 0; runtime_time_to_first_token_ms = 0 };
}

-- The `select`: a response comes before the error of the loop, which waits for it to be taken.
abbrev pub answer_of : Sink → Verdict → Answer
answer_of s v = elim s.responses [
  | resp ∷ _ ↦ responded resp s.stats
  | [] ↦ elim v [ none ↦ waiting | some o ↦ elim o [ none ↦ waiting | some e ↦ failed e ] ]
]

abbrev pub ended : ℕ → Task → Processor → Verdict → Processor
ended ref t p none = p
ended ref t p (some _) = finish_task ref t p

-- The loop of the goroutine: the task under the reference `ref`, and the items that come.
unfoldable pub loop_of : ℕ → Task → List Round → Processor → Processor × Sink × Verdict
loop_of ref t rs p =
    run_loop (write_task_result_to_http_resp_ch (stream t)) ref rs (start_task ref t p) new_sink

unfoldable pub send_task : ℕ → Task → List Round → Processor → Processor × Answer
send_task ref t rs p = let (q, s, v) = loop_of ref t rs p in (ended ref t q v, answer_of s v)

-- `newTask` with an ID of the generator, for a request to any engine.
unfoldable pub send_request :
    Request
    → ℕ
    → String
    → String
    → List (String × List String)
    → Option ℕ
    → ℕ
    → List Round
    → Processor
    → Processor × Answer
send_request request ref id tenant_id header deadline now rs p =
    send_task ref (new_task_with_id id tenant_id request header "" deadline now) rs p

unfoldable pub send_chat_completion_task :
    String
    → Bool
    → ℕ
    → String
    → String
    → List (String × List String)
    → Option ℕ
    → ℕ
    → List Round
    → Processor
    → Processor × Answer
send_chat_completion_task model stream = send_request (chat_completion model stream)

unfoldable pub send_embedding_task :
    String
    → ℕ
    → String
    → String
    → List (String × List String)
    → Option ℕ
    → ℕ
    → List Round
    → Processor
    → Processor × Answer
send_embedding_task model = send_request (embedding model)

unfoldable pub send_audio_transcription_task :
    String
    → ℕ
    → String
    → String
    → List (String × List String)
    → Option ℕ
    → ℕ
    → List Round
    → Processor
    → Processor × Answer
send_audio_transcription_task model = send_request (audio_transcription model)

unfoldable pub send_model_response_task :
    String
    → ℕ
    → String
    → String
    → List (String × List String)
    → Option ℕ
    → ℕ
    → List Round
    → Processor
    → Processor × Answer
send_model_response_task model = send_request (model_response model)

unfoldable pub send_tokenize_task :
    String
    → ℕ
    → String
    → String
    → List (String × List String)
    → Option ℕ
    → ℕ
    → List Round
    → Processor
    → Processor × Answer
send_tokenize_task model = send_request (tokenize_request model)

-- `SendAndProcessTask`: a task that has an ID already, with what is done with each result.
unfoldable pub send_and_process_task {ℓ} :
    {W : Type ℓ}
    → (TaskResult → W → W × Option TaskError)
    → ℕ
    → SentTask
    → String
    → Option ℕ
    → ℕ
    → List Round
    → Processor
    → W
    → Processor × W × Verdict
send_and_process_task process_result ref t tenant_id deadline now rs p w =
    let task = new_task_with_id t.id tenant_id t.request t.header t.engine_id deadline now in
    let (q, w', v) = run_loop process_result ref rs (start_task ref task p) w in
    (ended ref task q v, w', v)

-- The IDs of a tenant's engines that pass the predicate.
abbrev pub target_ids : (Engine → Bool) → List (String × Engine) → List String
target_ids pred [] = []
target_ids pred ((k, e) ∷ es) =
    if not (pred e) then target_ids pred es else e.id ∷ target_ids pred es

-- `engineIDsByTenant`, as pairs.
abbrev pub targets_of :
    (Engine → Bool) → List (String × List (String × Engine)) → List (String × String)
targets_of pred [] = []
targets_of pred ((t, es) ∷ m) = map (λ id. (t, id)) (target_ids pred es) ++ targets_of pred m

unfoldable pub targets : (Engine → Bool) → Processor → List (String × String)
targets pred p = targets_of pred p.engines

-- The task for an engine names it.
unfoldable pub engine_task : Request → Option ℕ → ℕ → String → String × String → Task
engine_task request deadline now id (tenant_id, engine_id) =
    new_task_with_id id tenant_id request [] engine_id deadline now

-- `sendTaskToEngines`, as its goroutines end one after another: `sends` says what `sendTask` answers
-- for an engine. The callback runs for each success; the first error is returned.
unfoldable pub send_task_to_engines :
    (String × String → Option TaskError)
    → (String → Processor → Processor)
    → List (String × String)
    → Processor
    → Processor × Option TaskError
send_task_to_engines sends callback [] p = (p, none)
send_task_to_engines sends callback (x ∷ xs) p =
    let (q, e) =
      send_task_to_engines sends callback xs
        (elim (sends x) [ none ↦ callback x.1 p | some _ ↦ p ]) in
    (q, elim (sends x) [ none ↦ e | some err ↦ some err ])

-- A heartbeat of an engine that is gone is logged, and changes nothing.
abbrev pub note_heartbeat : ℕ → String → Processor → Processor
note_heartbeat now engine_id p = or_else (update_last_engine_heartbeat engine_id now p) p

unfoldable pub send_heartbeat_task_to_engines :
    (String × String → Option TaskError) → ℕ → Processor → Processor × Option TaskError
send_heartbeat_task_to_engines sends now p =
    send_task_to_engines sends (note_heartbeat now) (targets (λ e. e.ready) p) p

unfoldable pub send_go_away_task_to_local_engines :
    (String × String → Option TaskError) → Processor → Processor × Option TaskError
send_go_away_task_to_local_engines sends p =
    send_task_to_engines sends (λ id q. q) (targets (λ e. e.is_local) p) p
