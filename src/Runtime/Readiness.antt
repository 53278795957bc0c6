-- ===== src/Runtime/Readiness.antt =====
-- `processReadinessCheckEvent` (engine/internal/runtime/manager.go).
use inference_manager.Base.{
  Option, [], if◌then◌else◌, leb, lookup, nat_eq, none, remove, some, string_eq, ◌+◌,
}
use inference_manager.Runtime.Events.{
  ReadinessCheckEvent, Runtime, RuntimePod, delete_model, readiness_check,
}
use inference_manager.Runtime.Manager.{
  Manager, Outcome, and_then, become_ready, close_wait_chs, close_with, goes_on, requeue_pending,
  signal, spawn,
}
use inference_manager.Runtime.World.{World}
use inference_manager.Router.RouteMap.{model_eq}

abbrev pub forget_pod : Option RuntimePod → Manager → Manager
forget_pod none m = m
forget_pod (some pod) m = record m {
  update_in_progress_pod_names = remove pod.name m.update_in_progress_pod_names;
}

-- The event of the next try; it has no pod.
unfoldable pub retry_of : ReadinessCheckEvent → ReadinessCheckEvent
retry_of e = record e { pod = none; retry_count = e.retry_count + 1 }

-- The retries are over: the waiters are told, and the runtime is to be deleted.
unfoldable pub give_up : ReadinessCheckEvent → Runtime → Manager → Outcome
give_up e rt m = and_then (close_wait_chs "runtime is unreachable" e.model_id rt m) (λ m'. goes_on (
    spawn (delete_model e.model_id none)
      (forget_pod e.pod (signal (close_with "" e.event_wait_ch) m'))))

unfoldable pub not_reachable : ReadinessCheckEvent → Runtime → Manager → Outcome
unfolding give_up retry_of
not_reachable e rt m =
    if leb m.readiness_check_max_retry_count e.retry_count
    then give_up e rt m
    else goes_on (spawn (readiness_check (retry_of e)) m)

-- The runtime is ready: its pending requests come again, and its waiters are told.
unfoldable pub reachable : ReadinessCheckEvent → Runtime → Manager → Outcome
reachable e rt m =
    let r : Runtime = record (become_ready e.address e.gpu e.replicas rt) {
      pending_pull_model_requests = [];
    } in
    and_then (close_wait_chs "" e.model_id r (requeue_pending rt (forget_pod e.pod m)))
      (λ m'. goes_on (signal (close_with "" e.event_wait_ch) m'))

unfoldable pub process_readiness_check_event : World → ReadinessCheckEvent → Manager → Outcome
unfolding not_reachable reachable
process_readiness_check_event w e m = elim (lookup e.model_id m.runtimes) [
  | none ↦ goes_on (forget_pod e.pod (signal (close_with "" e.event_wait_ch) m))
  | some rt ↦ if w.check e.address then reachable e rt m else not_reachable e rt m
]
