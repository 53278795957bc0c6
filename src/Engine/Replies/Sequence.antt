-- ===== src/Engine/Replies/Sequence.antt =====
-- The results of a task, one after the other.
use inference_manager.Base.{
  ==_iff, Bool, Bool-cases, List, Option, String, [], arith, eqb, eqb_iff, false, inl, inr, leb,
  ltb, nat_eq, none, not, refl, some, string_eq, suc, true, ℕ, ◌&&◌, ◌==◌, ◌||◌, ◌∷◌, ◌≡◌,
}
use inference_manager.Engine.Replies.{
  EngineTask, Pulled, Sending, Takes, after_reached, data_event, event_result, http_result,
  last_event, plain, process_task, pull_canceled, pull_failed, pulled, read_all, response_with,
  scanned, send_body, send_error_body, send_events, send_only, send_request_to_runtime,
  send_response, sending, sent_before, status_text,
}
use inference_manager.Engine.Runtimes.{
  Attempt, Reached, RuntimeResponse, not_reached, reached, send_http_request_to_runtime,
}
use inference_manager.Infprocessor.Task.{HttpResponse, TaskResult}
use inference_manager.Router.RouteMap.{model_eq}

abbrev pub sent_results : Sending → List TaskResult
sent_results (sending rs fine) = rs

-- The results are those of the task, numbered from `n` on.
abbrev pub numbered : String → ℕ → List TaskResult → Bool
numbered id n [] = true
numbered id n (r ∷ rs) = r.task_id == id && eqb r.result_index n && numbered id (suc n) rs

numbered-sent_before :
    (id : String) (n : ℕ) (r : TaskResult) (x : Sending)
    → r.task_id ≡ id
    → r.result_index ≡ n
    → numbered id (suc n) (sent_results x) ≡ true
    → numbered id n (sent_results (sent_before r x)) ≡ true
numbered-sent_before id n r (sending rs fine) i k h =
    ground (arith, i, k, h, ==_iff r.task_id id, eqb_iff r.result_index n)

numbered-one :
    (id : String) (r : TaskResult) (n : ℕ)
    → r.task_id ≡ id
    → r.result_index ≡ n
    → numbered id n (r ∷ []) ≡ true
numbered-one id r n i k = ground (arith, i, k, ==_iff r.task_id id, eqb_iff r.result_index n)

numbered-send_only :
    (takes : Takes) (t : EngineTask) (resp : HttpResponse) (fine : Bool)
    → numbered t.id 0 (sent_results (send_only takes t resp fine)) ≡ true
numbered-send_only takes t resp fine = elim (Bool-cases (takes 0)) [
  | inl h ↦ rw h (numbered-one t.id (http_result t resp) 0 refl refl)
  | inr h ↦ rw h refl
]

numbered-send_events :
    (takes : Takes) (t : EngineTask) (latency : ℕ) (broken : Bool) (tokens : List (List ℕ)) (n : ℕ)
    → numbered t.id n (sent_results (send_events takes t latency broken tokens n)) ≡ true
unfolding send_events
numbered-send_events takes t latency broken [] n =
    ground (arith, numbered-one t.id (event_result t (last_event latency) n) n refl refl)
numbered-send_events takes t latency broken (token ∷ tokens) n = ground (
  arith,
  numbered-sent_before t.id n (event_result t (data_event token) n)
      (send_events takes t latency broken tokens (suc n)) refl refl
      (numbered-send_events takes t latency broken tokens (suc n)),
)

numbered-send_response :
    (takes : Takes) (t : EngineTask) (latency : ℕ) (r : RuntimeResponse)
    → numbered t.id 0 (sent_results (send_response takes t latency r)) ≡ true
unfolding send_response
numbered-send_response takes t latency r =
    elim (Bool-cases (ltb r.status_code 200 || leb 400 r.status_code)) [
      | inl h ↦ rw h (error_body (read_all r))
      | inr h ↦ elim (Bool-cases t.task_stream) [
        | inr s ↦ rw (h, s) (whole (read_all r))
        | inl s ↦ elim (Bool-cases (takes 0)) [
          | inr k ↦ rw (h, s, k) refl
          | inl k ↦
              let broken = r.read_fails || not (scanned r).1 in
              rw (h, s, k)
                (numbered-sent_before t.id 0 (http_result t (response_with latency r []))
                  (send_events takes t latency broken (scanned r).0 1) refl refl
                  (numbered-send_events takes t latency broken (scanned r).0 1))
        ]
      ]
    ]
  where
    error_body :
        (b : Option (List ℕ))
        → numbered t.id 0 (sent_results (send_error_body takes t latency r b)) ≡ true
    error_body none = refl
    error_body (some body) =
        numbered-send_only takes t (record (response_with latency r body) { header = [] }) true

    whole :
        (b : Option (List ℕ))
        → numbered t.id 0 (sent_results (send_body takes t latency r b)) ≡ true
    whole none = refl
    whole (some body) = numbered-send_only takes t (response_with latency r body) true

numbered-request :
    (takes : Takes) (t : EngineTask) (latency : ℕ) (pull : Pulled) (world : ℕ → Attempt)
    → numbered t.id 0 (sent_results (send_request_to_runtime takes t latency pull world)) ≡ true
unfolding send_request_to_runtime
numbered-request takes t latency pull_canceled world = numbered-send_only takes t _ false
numbered-request takes t latency pull_failed world = numbered-send_only takes t _ false
numbered-request takes t latency pulled world = go (send_http_request_to_runtime world).1
  where
    go : (x : Reached) → numbered t.id 0 (sent_results (after_reached takes t latency x)) ≡ true
    go (not_reached code) = numbered-send_only takes t (plain code (status_text code) []) false
    go (reached r) = numbered-send_response takes t latency r

-- Whatever the kind of a task, the pull, the attempts and the runtime do, and wherever the stream
-- ends, the results that are sent have the ID of the task and are numbered from 0 on without a
-- gap.
pub process_task-numbered :
    (takes : Takes) (t : EngineTask) (latency : ℕ) (pull : Pulled) (world : ℕ → Attempt)
    → numbered t.id 0 (sent_results (process_task takes t latency pull world)) ≡ true
unfolding process_task
process_task-numbered takes t latency pull world = ground (
  arith,
  numbered-request takes t latency pull world,
  numbered-send_only takes t (plain 202 "" []) true,
  numbered-send_only takes t (plain 200 "" []) true,
  numbered-send_only takes t (plain 501 "" []) true,
)
