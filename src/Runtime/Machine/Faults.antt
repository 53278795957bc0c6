-- ===== src/Runtime/Machine/Faults.antt =====
-- Errors of the handlers that reach further than the event.
use inference_manager.Base.{
  List, Option-cases, String, [], arith, false, inl, inr, leb, length, lookup, nat_eq, none, refl,
  some, string_eq, true, ℕ, ◌∙◌, ◌∷◌, ◌≡◌,
}
use inference_manager.Runtime.Events.{
  LoraAdapterPullStatusCheckEvent, PullModelEvent, ReadinessCheckEvent, Runtime, RuntimePod, blocks,
  lora_adapter_pull_status_check, readiness_check,
}
use inference_manager.Runtime.Manager.{
  Closing, Manager, Outcome, and_then, become_ready, close_pending, close_wait_chs, close_with,
  closed_all, end_closing, get_llm_address, goes_on, requeue_pending, signal, spawn, sticks, stops,
  stuck_at, waits,
}
use inference_manager.Runtime.Machine.{
  Input, from_caller, from_goroutine, process, run_state_machine, step,
}
use inference_manager.Runtime.Machine.Settled.{state_of}
use inference_manager.Router.RouteMap.{model_eq}
use inference_manager.Router.Tenants.{names}
use inference_manager.Runtime.Pull.{process_pull_model_event, pull_new, start_lora_pull}
use inference_manager.Runtime.Readiness.{
  forget_pod, give_up, not_reachable, process_readiness_check_event, reachable, retry_of,
}
use inference_manager.Runtime.World.{World, host_port}
use inference_manager.Runtime.Lora.{
  note_pod, process_lora_adapter_pull_status_check_event, send_err,
}
use inference_manager.Runtime.Machine.Readied.{step-caller, step-last}

-- Where a model that has no runtime is pulled and cannot be got from the model manager, the
-- handler leaves the mutex locked, and every later request for an address waits.
pub pull_failure-waits :
    (w : World) (e : PullModelEvent) (m : Manager) (model_id : String) (now : ℕ)
    → w.new_client e.model_id ≡ true
    → lookup e.model_id m.runtimes ≡ none
    → w.get_model e.model_id ≡ none
    → (get_llm_address model_id now (state_of (process_pull_model_event w e m))).1 ≡ waits
unfolding process_pull_model_event pull_new get_llm_address
pull_failure-waits w e m model_id now client new none_got = ground arith

not_reachable-retries :
    (w : World) (e : ReadinessCheckEvent) (rt : Runtime) (m : Manager)
    → lookup e.model_id m.runtimes ≡ some rt
    → w.check e.address ≡ false
    → leb m.readiness_check_max_retry_count e.retry_count ≡ false
    → process w (readiness_check e) m ≡ goes_on (spawn (readiness_check (retry_of e)) m)
unfolding process process_readiness_check_event not_reachable
not_reachable-retries w e rt m there out_of_reach left = ground arith

close_wait_chs-names :
    (reason k : String) (r : Runtime) (m : Manager)
    → (state_of (close_wait_chs reason k r m)).update_in_progress_pod_names
      ≡ m.update_in_progress_pod_names
unfolding close_wait_chs
close_wait_chs-names reason k r m = go (close_pending reason r.pending_pull_model_requests)
  where
    go :
        (c : Closing)
        → (state_of (end_closing reason k r m c)).update_in_progress_pod_names
          ≡ m.update_in_progress_pod_names
    go (stuck_at s ss) = refl
    go (closed_all ss) = refl

and_then-names :
    (names : List String) (o : Outcome) (f : Manager → Outcome)
    → (state_of o).update_in_progress_pod_names ≡ names
    → ((m : Manager)
        → (state_of (f m)).update_in_progress_pod_names ≡ m.update_in_progress_pod_names)
    → (state_of (and_then o f)).update_in_progress_pod_names ≡ names
and_then-names names (goes_on m) f h k = k m ∙ h
and_then-names names (stops e m) f h k = h
and_then-names names (sticks s m) f h k = h

forget_pod-names :
    (e : ReadinessCheckEvent) (m : Manager)
    → e.pod ≡ none
    → (forget_pod e.pod m).update_in_progress_pod_names ≡ m.update_in_progress_pod_names
forget_pod-names e m h = rw h refl

give_up-names :
    (e : ReadinessCheckEvent) (rt : Runtime) (m : Manager)
    → e.pod ≡ none
    → (state_of (give_up e rt m)).update_in_progress_pod_names ≡ m.update_in_progress_pod_names
unfolding give_up
give_up-names e rt m h =
    and_then-names m.update_in_progress_pod_names
      (close_wait_chs "runtime is unreachable" e.model_id rt m) _
      (close_wait_chs-names "runtime is unreachable" e.model_id rt m)
      (λ m'. forget_pod-names e (signal (close_with "" e.event_wait_ch) m') h)

reachable-names :
    (e : ReadinessCheckEvent) (rt : Runtime) (m : Manager)
    → e.pod ≡ none
    → (state_of (reachable e rt m)).update_in_progress_pod_names ≡ m.update_in_progress_pod_names
unfolding reachable requeue_pending
reachable-names e rt m h =
    let r : Runtime = record (become_ready e.address e.gpu e.replicas rt) {
      pending_pull_model_requests = [];
    } in
    let m' = requeue_pending rt (forget_pod e.pod m) in
    and_then-names m.update_in_progress_pod_names (close_wait_chs "" e.model_id r m') _
      (close_wait_chs-names "" e.model_id r m' ∙ forget_pod-names e m h) (λ m''. refl)

-- A check without a pod drops no pod.
process-no_pod :
    (w : World) (e : ReadinessCheckEvent) (m : Manager)
    → e.pod ≡ none
    → (state_of (process w (readiness_check e) m)).update_in_progress_pod_names
      ≡ m.update_in_progress_pod_names
unfolding process process_readiness_check_event not_reachable
process-no_pod w e m h = elim (Option-cases (lookup e.model_id m.runtimes)) [
  | inl n ↦ ground (arith, forget_pod-names e (signal (close_with "" e.event_wait_ch) m) h)
  | inr (rt, n) ↦ ground (arith, reachable-names e rt m h, give_up-names e rt m h)
]

-- A check and, where it is put off, the next try.
abbrev pub check_and_retry : World → World → ReadinessCheckEvent → Manager → List Input
check_and_retry w w' e m =
    from_caller w (readiness_check e) ∷ from_goroutine w' (length m.spawned) ∷ []

-- A readiness check that is put off and tried again, whatever the second try finds, never takes
-- its pod from the pods that are being updated: the event of the retry does not have the pod.
pub retry-keeps_pod :
    (w w' : World) (e : ReadinessCheckEvent) (rt : Runtime) (m : Manager)
    → lookup e.model_id m.runtimes ≡ some rt
    → w.check e.address ≡ false
    → leb m.readiness_check_max_retry_count e.retry_count ≡ false
    → (state_of (run_state_machine (check_and_retry w w' e m) m)).update_in_progress_pod_names
      ≡ m.update_in_progress_pod_names
unfolding run_state_machine retry_of
retry-keeps_pod w w' e rt m there out_of_reach left =
    let first : step (from_caller w (readiness_check e)) m
        ≡ goes_on (spawn (readiness_check (retry_of e)) m) =
      step-caller w (readiness_check e) m
      ∙ not_reachable-retries w e rt m there out_of_reach left in
    rw (first, step-last w' (readiness_check (retry_of e)) m)
      (and_then-names m.update_in_progress_pod_names (process w' (readiness_check (retry_of e)) m)
        goes_on (process-no_pod w' (retry_of e) m refl) (λ m'. refl))

abbrev status_check : PullModelEvent → RuntimePod → Runtime → LoraAdapterPullStatusCheckEvent
status_check e pod br = record {
  model_id = e.model_id;
  pod = pod;
  gpu = br.gpu;
  event_wait_ch = none;
}

start_lora_pull-checks :
    (w : World) (e : PullModelEvent) (br : Runtime) (m : Manager) (pod : RuntimePod)
    → w.select_target br.name ≡ some pod
    → w.pull (host_port pod.pod_ip m.puller_port) e.model_id ≡ true
    → start_lora_pull w e br m
      ≡ goes_on (spawn (lora_adapter_pull_status_check (status_check e pod br)) m)
unfolding start_lora_pull
start_lora_pull-checks w e br m pod target pulled = ground arith

gone-blocks :
    (w : World) (e : LoraAdapterPullStatusCheckEvent) (m : Manager)
    → e.event_wait_ch ≡ none
    → w.target_exists e.pod ≡ some false
    → process w (lora_adapter_pull_status_check e) m ≡ sticks blocks (note_pod e.pod.name m)
unfolding process process_lora_adapter_pull_status_check_event send_err
gone-blocks w e m unheard gone = ground arith

-- Where a base model is ready and an adapter is pulled to one of its pods, and this pod is gone
-- when the pull is checked, the state machine blocks for ever: the error is sent on a channel that
-- nobody receives from.
pub lora_pull-blocks :
    (w w' : World) (e : PullModelEvent) (br : Runtime) (m : Manager) (pod : RuntimePod)
    → w.select_target br.name ≡ some pod
    → w.pull (host_port pod.pod_ip m.puller_port) e.model_id ≡ true
    → w'.target_exists pod ≡ some false
    → (m' : Manager) × (and_then
          (start_lora_pull w e br m)
          (step (from_goroutine w' (length m.spawned)))
        ≡ sticks blocks m')
lora_pull-blocks w w' e br m pod target pulled gone =
    let ev = status_check e pod br in
    (
      note_pod pod.name m,
      rw (start_lora_pull-checks w e br m pod target pulled)
          (step-last w' (lora_adapter_pull_status_check ev) m ∙ gone-blocks w' ev m refl gone),
    )
