-- ===== src/Infprocessor/Send/Single.antt =====
-- The answer to a task that does not stream.
use inference_manager.Base.{
  All, Bool, Bool-cases, List, Option, [], ap, arith, eqb, false, inl, inr, lookup-insert_self,
  nat_eq, none, refl, some, string_eq, subst, sym, true, ℕ, ◌++◌, ◌∙◌, ◌∷◌, ◌≡◌, ◌⊎◌,
}
use inference_manager.Infprocessor.Task.{
  HttpResponse, Message, ResultOrError, Task, TaskError, TaskResult, failure, http_response, result,
  retriable, server_sent_event, stream, unexpected_result_index, unset_message,
}
use inference_manager.Infprocessor.State.{Processor, enqueue}
use inference_manager.Infprocessor.Results.{
  Round, Verdict, after_process, given_engine, go_on, is_task_completed, on_completed, on_error,
  on_item, on_round, one_round, out_of_order, retried, run_loop, start_task,
}
use inference_manager.Infprocessor.Results.Retries.{Holds, on_error_cases, update_task-Holds}
use inference_manager.Infprocessor.Results.Response.{
  Response, Sink, open_response, respond, response_of, write-error_unchanged, write_body,
  write_message, write_task_result_to_http_resp_ch,
}
use inference_manager.Infprocessor.Engines.{update_task}
use inference_manager.Infprocessor.Send.{
  Answer, answer_of, failed, loop_of, new_sink, responded, send_task, waiting,
}
use inference_manager.Router.Routing.{answer}

-- An error, or a whole HTTP response.
abbrev pub is_whole : ResultOrError → Bool
is_whole (failure e) = true
is_whole (result r) = elim r.message [
  | http_response _ ↦ true
  | server_sent_event _ ↦ false
  | unset_message ↦ false
]

-- While the loop waits, nothing is sent; a task that is complete has sent one response, and one that
-- failed none.
record Unanswered (ref : ℕ) (p : Processor) (s : Sink) : Type 0 where
  task : Task
  holds : Holds ref p task
  single : stream task ≡ false
  silent : s.responses ≡ []

abbrev Failed : Sink → Verdict → Type 0
Failed s v = (e : TaskError) × ((v ≡ some (some e)) × (s.responses ≡ []))

abbrev Done : Sink → Verdict → Type 0
Done s v = (v ≡ some none) × ((resp : Response) × (s.responses ≡ resp ∷ []))

Stage : ℕ → Processor × Sink × Verdict → Type 0
Stage ref (q, s, v) = ((v ≡ none) × Unanswered ref q s) ⊎ (Done s v ⊎ Failed s v)

on_error-Stage :
    (ref : ℕ) (t : Task) (e : TaskError) (now : ℕ) (p : Processor) (s : Sink)
    → Holds ref p t
    → stream t ≡ false
    → s.responses ≡ []
    → Stage ref ((on_error ref t e now p).0, s, (on_error ref t e now p).1)
unfolding Stage retried stream
on_error-Stage ref t e now p s h single silent = elim (on_error_cases ref t e now p h) [
  | inl (v, _, _, _, _, _, _, held) ↦
      inl (v, record { task = retried t; holds = held; single = single; silent = silent })
  | inr (stopped, _) ↦ inr (inr (e, (stopped, silent)))
]

write_body-responses : (bytes : List ℕ) (s : Sink) → (write_body bytes s).responses ≡ s.responses
write_body-responses bytes s = ground arith

one_response :
    (resp : HttpResponse) (b : Bool) (s : Sink)
    → s.responses ≡ []
    → (r : Response) × ((respond resp b s).responses ≡ r ∷ [])
unfolding respond
one_response resp b s silent = (
  response_of resp,
  write_body-responses resp.body (open_response resp b s)
      ∙ ap (λ x. x ++ response_of resp ∷ []) silent,
)

-- A response that is processed without an error is the one response.
processed :
    (resp : HttpResponse) (b : Bool) (s : Sink)
    → (write_message (http_response resp) b s).1 ≡ none
    → s.responses ≡ []
    → (r : Response) × ((write_message (http_response resp) b s).0.responses ≡ r ∷ [])
unfolding write_message
processed resp b s h silent = elim (Bool-cases (eqb resp.status_code 503)) [
  | inl c ↦ absurd (ground arith)
  | inr c ↦ elim (Bool-cases (eqb resp.status_code 500)) [
    | inl d ↦ absurd (ground arith)
    | inr d ↦ rw (c, d) (one_response resp b s silent)
  ]
]

completes :
    (t : Task) (m : Message) (b : Bool) (s s' : Sink)
    → (elim m [ http_response _ ↦ true | server_sent_event _ ↦ false | unset_message ↦ false ]
        ≡ true)
    → write_message m b s ≡ (s', none)
    → stream t ≡ false
    → s.responses ≡ []
    → Done s' (on_completed (is_task_completed t m))
unfolding is_task_completed
completes t (http_response resp) b s s' i w single silent =
    let (x, e) = processed resp b s (ap (λ o. o.1) w) silent in
    (rw single refl, (x, ap (λ o. o.0.responses) (sym w) ∙ e))
completes t (server_sent_event sse) b s s' i w single silent = absurd (cc i)
completes t unset_message b s s' i w single silent = absurd (cc i)

after_process-Stage :
    (ref : ℕ) (t : Task) (r : TaskResult) (now : ℕ) (p : Processor) (s : Sink) (b : Bool)
    (o : Sink × Option TaskError)
    → write_task_result_to_http_resp_ch b r s ≡ o
    → is_whole (result r) ≡ true
    → Holds ref p t
    → stream t ≡ false
    → s.responses ≡ []
    → Stage ref (after_process (write_task_result_to_http_resp_ch b) ref t r now p o)
unfolding Stage write_task_result_to_http_resp_ch
after_process-Stage ref t r now p s b (s', some e) w i h single silent =
    let same : s' ≡ s = sym (ap (λ o. o.0) w) ∙ write-error_unchanged b r s e (ap (λ o. o.1) w) in
    on_error-Stage ref t e now p s' h single (ap (λ x. x.responses) same ∙ silent)
after_process-Stage ref t r now p s b (s', none) w i h single silent =
    inr (inl (completes t r.message b s s' i w single silent))

on_item-Stage :
    (ref : ℕ) (t : Task) (i : ResultOrError) (now : ℕ) (p : Processor) (s : Sink) (b : Bool)
    → is_whole i ≡ true
    → Holds ref p t
    → stream t ≡ false
    → s.responses ≡ []
    → Stage ref (on_item (write_task_result_to_http_resp_ch b) ref t i now p s)
unfolding on_item Stage
on_item-Stage ref t (failure e) now p s b i h single silent =
    on_error-Stage ref t (retriable e) now p s h single silent
on_item-Stage ref t (result r) now p s b i h single silent = elim (Bool-cases (out_of_order t r)) [
  | inl c ↦ rw c (inr (inr (unexpected_result_index, (refl, silent))))
  | inr c ↦ rw c (
      after_process-Stage ref t r now p s b (write_task_result_to_http_resp_ch b r s) refl i h
        single silent)
]

one_round-Stage :
    (ref : ℕ) (r : Round) (p : Processor) (s : Sink) (b : Bool)
    → is_whole r.item ≡ true
    → Unanswered ref p s
    → Stage ref (one_round (write_task_result_to_http_resp_ch b) ref r p s)
unfolding one_round stream
one_round-Stage ref r p s b i u =
    let p1 = update_task ref (given_engine r.engine_id) p in
    let t = given_engine r.engine_id u.task in
    let held : Holds ref p1 t = update_task-Holds ref (given_engine r.engine_id) p u.task u.holds in
    subst (λ o. Stage ref (on_round (write_task_result_to_http_resp_ch b) ref r p1 s o)) (sym held)
      (on_item-Stage ref t r.item r.now p1 s b i held u.single u.silent)

loop-Stage :
    (ref : ℕ) (rs : List Round) (p : Processor) (s : Sink) (b : Bool)
    → All (λ r. is_whole r.item ≡ true) rs
    → Unanswered ref p s
    → Stage ref (run_loop (write_task_result_to_http_resp_ch b) ref rs p s)
unfolding run_loop Stage
loop-Stage ref [] p s b a u = inl (refl, u)
loop-Stage ref (r ∷ rs) p s b (i, a) u =
    go (one_round (write_task_result_to_http_resp_ch b) ref r p s) (one_round-Stage ref r p s b i u)
      (λ q s'. loop-Stage ref rs q s' b a)
  where
    next : Processor → Sink → Processor × Sink × Verdict
    next = run_loop (write_task_result_to_http_resp_ch b) ref rs

    go :
        (o : Processor × Sink × Verdict)
        → Stage ref o
        → ((q : Processor) (s' : Sink) → Unanswered ref q s' → Stage ref (next q s'))
        → Stage ref (go_on (write_task_result_to_http_resp_ch b) next o.0 o.1 o.2)
    go (q, s', none) (inl (v, u')) ih = ih q s' u'
    go (q, s', none) (inr (inl (v, d))) ih = absurd (cc v)
    go (q, s', none) (inr (inr (e, (v, d)))) ih = absurd (cc v)
    go (q, s', some v') k ih = k

start-Holds : (ref : ℕ) (t : Task) (p : Processor) → Holds ref (start_task ref t p) t
unfolding start_task enqueue
start-Holds ref t p = lookup-insert_self {K = ℕ} ref t p.heap

-- The caller waits as long as the loop does, and then has the one response or the error.
abbrev pub Answered : Sink → Verdict → Answer → Type 0
Answered s v answer =
    ((v ≡ none) × (answer ≡ waiting))
    ⊎ (((v ≡ some none)
          × ((resp : Response) × ((s.responses ≡ resp ∷ []) × (answer ≡ responded resp s.stats))))
        ⊎ ((e : TaskError) × ((v ≡ some (some e)) × ((s.responses ≡ []) × (answer ≡ failed e)))))

Stage-Answered :
    (ref : ℕ) (o : Processor × Sink × Verdict) → Stage ref o → Answered o.1 o.2 (answer_of o.1 o.2)
unfolding Stage
Stage-Answered ref (q, s, v) (inl (w, u)) = inl (w, rw (u.silent, w) refl)
Stage-Answered ref (q, s, v) (inr (inl (w, (resp, r)))) = inr (inl (w, (resp, (r, rw r refl))))
Stage-Answered ref (q, s, v) (inr (inr (e, (w, r)))) = inr (inr (e, (w, (r, rw (r, w) refl))))

-- For a task that does not stream, and to which only errors and whole HTTP responses come, the
-- caller waits as long as the loop does; when the task is complete it has exactly one response,
-- and when the loop fails it has the error and no response was sent.
pub send_task-Answered :
    (ref : ℕ) (t : Task) (rs : List Round) (p : Processor)
    → stream t ≡ false
    → All (λ r. is_whole r.item ≡ true) rs
    → Answered (loop_of ref t rs p).1 (loop_of ref t rs p).2 (send_task ref t rs p).1
unfolding loop_of send_task
send_task-Answered ref t rs p single a = Stage-Answered ref (loop_of ref t rs p) (
    loop-Stage ref rs (start_task ref t p) new_sink (stream t) a
      (record { task = t; holds = start-Holds ref t p; single = single; silent = refl }))
