-- ===== src/Infprocessor/Results/Response.antt =====
-- What becomes of a result on the side of the HTTP handler (`writeTaskResultToHTTPRespCh`,
-- server/internal/infprocessor/infprocessor.go, and processing_stats.go).
use mathlib.Core.List.{append-nil, append_assoc}
use inference_manager.Base.{
  Bool, Bool-cases, List, Option, String, [], ap, arith, eqb, if◌then◌else◌, inl, inr, insert,
  length, lookup, nat_eq, none, not, or_else, refl, some, string_eq, sym, true, ℕ, ◌++◌, ◌∙◌, ◌∷◌,
  ◌≡◌,
}
use inference_manager.Infprocessor.Task.{
  HttpResponse, Message, TaskError, TaskResult, engine_failed, engine_unavailable, http_response,
  retriable, server_sent_event, unexpected_message, unset_message,
}

pub record ProcessingStats : Type 0 where
  pub runtime_latency_ms : ℕ
  pub runtime_time_to_first_token_ms : ℕ

unfoldable pub set_runtime_latency_ms : ℕ → ProcessingStats → ProcessingStats
set_runtime_latency_ms v s = record s { runtime_latency_ms = v }

unfoldable pub set_runtime_time_to_first_token_ms_if_unset : ℕ → ProcessingStats → ProcessingStats
set_runtime_time_to_first_token_ms_if_unset v s =
    if eqb s.runtime_time_to_first_token_ms 0
    then record s { runtime_time_to_first_token_ms = v }
    else s

-- The response as the handler gets it: its status and header; the body comes through the pipe.
pub record Response : Type 0 where
  pub status_code : ℕ
  pub status : String
  pub header : List (String × List String)

-- The handler's side: the responses put into the channel, oldest first, the bytes written to the
-- body, and the stats. The handler takes one response and closes the body when it likes.
pub record Sink : Type 0 where
  pub responses : List Response
  pub body : List ℕ
  pub body_open : Bool
  pub stats : ProcessingStats

-- A failed write is logged and changes nothing else.
abbrev pub write_body : List ℕ → Sink → Sink
write_body bytes s =
    if eqb (length bytes) 0
    then s
    else if s.body_open
    then record s { body = s.body ++ bytes }
    else s

-- `header.Add(k, v)` for each value. Keys are in canonical form, as the engine's client gives them.
abbrev pub add_values :
    String → List String → List (String × List String) → List (String × List String)
add_values k [] h = h
add_values k (v ∷ vs) h = add_values k vs (insert k (or_else (lookup k h) [] ++ v ∷ []) h)

abbrev pub copy_header :
    List (String × List String) → List (String × List String) → List (String × List String)
copy_header [] h = h
copy_header ((k, vs) ∷ rest) h = copy_header rest (add_values k vs h)

abbrev pub response_of : HttpResponse → Response
response_of resp = record {
  status_code = resp.status_code;
  status = resp.status;
  header = copy_header resp.header [];
}

-- The stats are set before the response goes into the channel.
abbrev pub open_response : HttpResponse → Bool → Sink → Sink
open_response resp is_streaming s =
    let first = set_runtime_time_to_first_token_ms_if_unset resp.latency_ms s.stats in
    record s {
      responses = s.responses ++ response_of resp ∷ [];
      stats = if not is_streaming then set_runtime_latency_ms resp.latency_ms first else first;
    }

unfoldable pub respond : HttpResponse → Bool → Sink → Sink
respond resp is_streaming s = write_body resp.body (open_response resp is_streaming s)

unfoldable pub write_message : Message → Bool → Sink → Sink × Option TaskError
unfolding respond
write_message (http_response resp) is_streaming s =
    if eqb resp.status_code 503
    then (s, some (retriable engine_unavailable))
    else if eqb resp.status_code 500
    then (s, some engine_failed)
    else (respond resp is_streaming s, none)
write_message (server_sent_event sse) is_streaming s = (
  write_body sse.sse_data (
      if sse.is_last_event
      then record s { stats = set_runtime_latency_ms sse.latency_ms s.stats }
      else s),
  none,
)
write_message unset_message is_streaming s = (s, some unexpected_message)

-- `writeTaskResultToHTTPRespCh`, where the handler has not yet taken a response or takes no second
-- one: a second response in a row would wait for a reader.
unfoldable pub write_task_result_to_http_resp_ch :
    Bool → TaskResult → Sink → Sink × Option TaskError
unfolding write_message
write_task_result_to_http_resp_ch is_streaming r s = write_message r.message is_streaming s

-- A result that is answered with an error leaves the handler's side as it was: nothing is sent
-- that a retry would send again.
pub write-error_unchanged :
    (is_streaming : Bool) (r : TaskResult) (s : Sink) (e : TaskError)
    → (write_task_result_to_http_resp_ch is_streaming r s).1 ≡ some e
    → (write_task_result_to_http_resp_ch is_streaming r s).0 ≡ s
unfolding write_task_result_to_http_resp_ch
write-error_unchanged is_streaming r s e h = of_message r.message h
  where
    of_message :
        (m : Message)
        → (write_message m is_streaming s).1 ≡ some e
        → (write_message m is_streaming s).0 ≡ s
    of_message (http_response resp) k = ground arith
    of_message (server_sent_event sse) k = cc k
    of_message unset_message k = refl

-- The bytes of a result that the client is to see.
abbrev pub body_of : Message → List ℕ
body_of (http_response resp) =
    if eqb resp.status_code 503 then [] else if eqb resp.status_code 500 then [] else resp.body
body_of (server_sent_event sse) = sse.sse_data
body_of unset_message = []

abbrev pub bodies : List TaskResult → List ℕ
bodies [] = []
bodies (r ∷ rs) = body_of r.message ++ bodies rs

unfoldable pub write_all : Bool → List TaskResult → Sink → Sink
write_all is_streaming [] s = s
write_all is_streaming (r ∷ rs) s =
    write_all is_streaming rs (write_task_result_to_http_resp_ch is_streaming r s).0

write_body-body :
    (bytes : List ℕ) (s : Sink)
    → s.body_open ≡ true
    → ((write_body bytes s).body ≡ s.body ++ bytes) × ((write_body bytes s).body_open ≡ true)
write_body-body [] s h = (sym (append-nil s.body), h)
write_body-body (b ∷ bs) s h = (ground (arith, h), ground (arith, h))

write-body :
    (is_streaming : Bool) (r : TaskResult) (s : Sink)
    → s.body_open ≡ true
    → let t = (write_task_result_to_http_resp_ch is_streaming r s).0 in
      (t.body ≡ s.body ++ body_of r.message) × (t.body_open ≡ true)
unfolding write_task_result_to_http_resp_ch
write-body is_streaming r s h = of_message r.message
  where
    of_message :
        (m : Message)
        → ((write_message m is_streaming s).0.body ≡ s.body ++ body_of m)
          × ((write_message m is_streaming s).0.body_open ≡ true)
    of_message (http_response resp) = elim (Bool-cases (eqb resp.status_code 503)) [
      | inl c ↦ rw c (sym (append-nil s.body), h)
      | inr c ↦ rw c (elim (Bool-cases (eqb resp.status_code 500)) [
        | inl d ↦ rw d (sym (append-nil s.body), h)
        | inr d ↦ rw d (write_body-body resp.body _ h)
      ])
    ]
    of_message (server_sent_event sse) = elim (Bool-cases sse.is_last_event) [
      | inl c ↦ rw c (write_body-body sse.sse_data _ h)
      | inr c ↦ rw c (write_body-body sse.sse_data _ h)
    ]
    of_message unset_message = (sym (append-nil s.body), h)

-- While the client reads, the body that it sees is the bytes of the results, in the order in which
-- they come; responses that are answered with an error add none.
pub write_all-body :
    (is_streaming : Bool) (rs : List TaskResult) (s : Sink)
    → s.body_open ≡ true
    → (write_all is_streaming rs s).body ≡ s.body ++ bodies rs
unfolding write_all
write_all-body is_streaming [] s h = sym (append-nil s.body)
write_all-body is_streaming (r ∷ rs) s h =
    let (b, o) = write-body is_streaming r s h in
    write_all-body is_streaming rs (write_task_result_to_http_resp_ch is_streaming r s).0 o
    ∙ (ap (λ x. x ++ bodies rs) b ∙ append_assoc s.body (body_of r.message) (bodies rs))
