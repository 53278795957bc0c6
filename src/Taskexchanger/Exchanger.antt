-- ===== src/Taskexchanger/Exchanger.antt =====
-- server/internal/taskexchanger/task_exchanger.go: the task exchanger `E` of a server, with a
-- receiver for each other server that it connects to and a sender for each that connects to it.
use Prim.Native.String.{◌++◌}
use inference_manager.Base.{
  Bool, List, Option, String, [], delete, if◌then◌else◌, insert, lookup, map_values, nat_eq, none,
  or_else, some, string_eq, ℕ, ◌==◌,
}
use inference_manager.Infprocessor.State.{Processor}
use inference_manager.Taskexchanger.Sender.{
  StatusWithTenantId, TaskSender, add_or_update_engines, new_task_sender, remove_all_engines,
}
use inference_manager.Taskexchanger.Receiver.{
  TaskReceiver, new_task_receiver, start_graceful_shutdown,
}
pub mod Servers
pub mod Pods
pub mod History

pub record Exchanger : Type 0 where
  pub inf_processor : Processor
  pub local_pod_name : String
  -- In decimal digits.
  pub grpc_port : String
  -- By the names of the pods of the other servers.
  pub task_receivers : List (String × TaskReceiver)
  pub task_senders : List (String × TaskSender)

unfoldable pub new_e : Processor → String → String → Exchanger
new_e p local_pod_name grpc_port = record {
  inf_processor = p;
  local_pod_name = local_pod_name;
  grpc_port = grpc_port;
  task_receivers = [];
  task_senders = [];
}

-- What a pod's object says; Kubernetes keeps the object.
pub record Pod : Type 0 where
  pub name : String
  pub pod_ip : String
  pub is_deleted : Bool

unfoldable pub create_task_receiver : Pod → Exchanger → Exchanger
create_task_receiver pod e = elim (lookup pod.name e.task_receivers) [
  | some _ ↦ e
  | none ↦ record e {
    task_receivers =
        insert pod.name (new_task_receiver (pod.pod_ip ++ ":" ++ e.grpc_port)) e.task_receivers;
  }
]

-- A receiver that is deleted is also stopped: its goroutines end.
unfoldable pub delete_task_receiver : String → Exchanger → Exchanger
delete_task_receiver server_pod_name e = record e {
  task_receivers = delete server_pod_name e.task_receivers;
}

-- `Reconcile`, with what `Get` finds for the pod: `none` where it does not exist.
unfoldable pub reconcile : String → Option Pod → Exchanger → Exchanger
unfolding create_task_receiver delete_task_receiver
reconcile name none e = delete_task_receiver name e
reconcile name (some pod) e =
    if pod.pod_ip == "" then e else if pod.is_deleted then e else create_task_receiver pod e

-- The end of a receiver's goroutine: it is made anew unless it was shut down, and the pod is there.
unfoldable pub receiver_stopped : String → TaskReceiver → Option Pod → Exchanger → Exchanger
unfolding reconcile delete_task_receiver
receiver_stopped name r pod e =
    if r.is_shutdown
    then delete_task_receiver name e
    else reconcile name pod (delete_task_receiver name e)

module _ (sender_for : ℕ → String → ℕ) where
  abbrev pub with_sender : String → Exchanger → TaskSender × Processor → Exchanger
  with_sender name e (s, p) = record e {
    inf_processor = p;
    task_senders = insert name s e.task_senders;
  }

  unfoldable pub add_or_update_server_status :
      ℕ → String → List StatusWithTenantId → Exchanger → Exchanger
  add_or_update_server_status srv pod_name statuses e =
      let s = or_else (lookup pod_name e.task_senders) (new_task_sender srv) in
      with_sender pod_name e (add_or_update_engines sender_for statuses s e.inf_processor)

  unfoldable pub remove_server : String → Exchanger → Exchanger
  remove_server pod_name e = elim (lookup pod_name e.task_senders) [
    | none ↦ e
    | some s ↦ record e {
      inf_processor = (remove_all_engines sender_for s e.inf_processor).1;
      task_senders = delete pod_name e.task_senders;
    }
  ]

-- `StartGracefulShutdown`.
unfoldable pub shut_down : Exchanger → Exchanger
shut_down e = record e { task_receivers = map_values start_graceful_shutdown e.task_receivers }
