-- ===== src/Engine/Replies/Relay.antt =====
-- A stream that is relayed.
use inference_manager.Base.{
  List, [], ap, arith, false, leb, length, ltb, nat_eq, refl, string_eq, suc, sym, true, ℕ, ◌++◌,
  ◌||◌, ◌∙◌, ◌∷◌, ◌≡◌,
}
use inference_manager.Engine.Replies.{
  EngineTask, Sending, Takes, data_event, event_result, http_result, response_with, scanned,
  send_events, send_response, sending, sent_before, succeeds,
}
use inference_manager.Engine.Replies.Sequence.{sent_results}
use inference_manager.Engine.Runtimes.{RuntimeResponse}
use inference_manager.Sse.{scan}
use inference_manager.Sse.RoundTrip.{all_clean, all_fit, encode, scan-encode}
use inference_manager.Infprocessor.Task.{
  Message, TaskResult, http_response, server_sent_event, stream, unset_message,
}
use inference_manager.Router.RouteMap.{model_eq}
use inference_manager.Sse.Delimiters.{clean}

abbrev pub data_in : Message → List ℕ
data_in (http_response resp) = resp.body
data_in (server_sent_event e) = e.sse_data
data_in unset_message = []

-- The bytes of the results, one after the other.
abbrev pub data_of : List TaskResult → List ℕ
data_of [] = []
data_of (r ∷ rs) = data_in r.message ++ data_of rs

abbrev pub always : Takes
always n = true

append_gap : (token l : List ℕ) → (token ++ 10 ∷ 10 ∷ []) ++ l ≡ token ++ 10 ∷ 10 ∷ l
append_gap [] l = refl
append_gap (x ∷ token) l = ap (λ m. x ∷ m) (append_gap token l)

data_of-sent_before :
    (r : TaskResult) (x : Sending)
    → data_of (sent_results (sent_before r x)) ≡ data_in r.message ++ data_of (sent_results x)
data_of-sent_before r (sending rs fine) = refl

succeeds-sent_before : (r : TaskResult) (x : Sending) → succeeds (sent_before r x) ≡ succeeds x
succeeds-sent_before r (sending rs fine) = refl

data_of-send_events :
    (t : EngineTask) (latency : ℕ) (tokens : List (List ℕ)) (n : ℕ)
    → data_of (sent_results (send_events always t latency false tokens n)) ≡ encode tokens
unfolding send_events encode
data_of-send_events t latency [] n = refl
data_of-send_events t latency (token ∷ tokens) n =
    let rest = send_events always t latency false tokens (suc n) in
    let first : data_of (sent_results (sent_before (event_result t (data_event token) n) rest))
        ≡ (token ++ 10 ∷ 10 ∷ []) ++ data_of (sent_results rest) =
      data_of-sent_before (event_result t (data_event token) n) rest in
    let apart : (token ++ 10 ∷ 10 ∷ []) ++ data_of (sent_results rest)
        ≡ token ++ 10 ∷ 10 ∷ data_of (sent_results rest) =
      append_gap token (data_of (sent_results rest)) in
    let later : token ++ 10 ∷ 10 ∷ data_of (sent_results rest) ≡ token ++ 10 ∷ 10 ∷ encode tokens =
      ap (λ l. token ++ 10 ∷ 10 ∷ l) (data_of-send_events t latency tokens (suc n)) in
    first ∙ apart ∙ later

succeeds-send_events :
    (t : EngineTask) (latency : ℕ) (tokens : List (List ℕ)) (n : ℕ)
    → succeeds (send_events always t latency false tokens n) ≡ true
unfolding send_events
succeeds-send_events t latency [] n = refl
succeeds-send_events t latency (token ∷ tokens) n =
    succeeds-sent_before (event_result t (data_event token) n)
      (send_events always t latency false tokens (suc n))
    ∙ succeeds-send_events t latency tokens (suc n)

send_response-streams :
    (t : EngineTask) (latency : ℕ) (r : RuntimeResponse) (es : List (List ℕ))
    → (ltb r.status_code 200 || leb 400 r.status_code) ≡ false
    → t.task_stream ≡ true
    → r.read_fails ≡ false
    → scanned r ≡ (es, true)
    → send_response always t latency r
      ≡ sent_before
          (http_result t (response_with latency r []))
          (send_events always t latency false es 1)
unfolding send_response
send_response-streams t latency r es fine stream whole tokens =
    rw (fine, stream, whole, tokens) refl

-- For a task that streams, whose runtime answers with a status from 200 to 399 and a body that is
-- read to its end without an error, made of events of at most 4,094 bytes without a carriage
-- return, without a blank line and without a line end at their end, each followed by a blank line:
-- if the stream to the server takes all results, their bytes, one after the other, are this body,
-- and the handler ends without an error.
pub send_response-relays :
    (t : EngineTask) (latency : ℕ) (r : RuntimeResponse) (es : List (List ℕ))
    → (ltb r.status_code 200 || leb 400 r.status_code) ≡ false
    → t.task_stream ≡ true
    → r.read_fails ≡ false
    → r.body ≡ encode es
    → all_clean es ≡ true
    → all_fit 4096 es ≡ true
    → (data_of (sent_results (send_response always t latency r)) ≡ r.body)
      × (succeeds (send_response always t latency r) ≡ true)
send_response-relays t latency r es fine stream whole body clean fit =
    let tokens : scanned r ≡ (es, true) =
      ap (λ b. scan r.end_with_data (suc (length b)) b) body
      ∙ scan-encode r.end_with_data es (suc (length (encode es))) clean fit (omega arith) in
    let first = http_result t (response_with latency r []) in
    let events = send_events always t latency false es 1 in
    let sent = send_response-streams t latency r es fine stream whole tokens in
    (
      ap (λ x. data_of (sent_results x)) sent
          ∙ data_of-sent_before first events
          ∙ data_of-send_events t latency es 1
          ∙ sym body,
      ap succeeds sent ∙ succeeds-sent_before first events ∙ succeeds-send_events t latency es 1,
    )
