-- ===== src/Runtime/Events.antt =====
-- engine/internal/runtime/events.go: the events of the state machine, and what the runtimes and the
-- channels are. A channel is a number; `none` as the channel of an event is one that nobody receives
-- from, and as the channel of a pull it is nil.
use inference_manager.Base.{Bool, List, Option, String, [], false, nat_eq, none, string_eq, ℕ}
use inference_manager.Runtime.AddressSet.{AddressSet}
use inference_manager.Router.RouteMap.{model_eq}

pub record PullModelEvent : Type 0 where
  pub model_id : String
  pub ready_wait_ch : Option ℕ

-- What is read of a pod.
pub record RuntimePod : Type 0 where
  pub name : String
  pub pod_ip : String

pub record ReadinessCheckEvent : Type 0 where
  pub model_id : String
  pub address : String
  pub gpu : ℕ
  pub replicas : ℕ
  pub pod : Option RuntimePod
  pub retry_count : ℕ
  pub event_wait_ch : Option ℕ

pub record LoraAdapterPullStatusCheckEvent : Type 0 where
  pub model_id : String
  pub pod : RuntimePod
  pub gpu : ℕ
  pub event_wait_ch : Option ℕ

pub record LoraAdapterStatusUpdate : Type 0 where
  pub pod_name : String
  pub pod_ip : String
  pub gpu : ℕ
  pub base_model_id : String
  pub added_adapter_ids : List String
  pub removed_adapter_ids : List String

pub data ManagerEvent : Type 0 where
  pull_model : PullModelEvent → ManagerEvent
  delete_model : String → Option ℕ → ManagerEvent
  update_model : String → Option ℕ → ManagerEvent
  reconcile_stateful_set : String → Option ℕ → ManagerEvent
  readiness_check : ReadinessCheckEvent → ManagerEvent
  lora_adapter_pull_status_check : LoraAdapterPullStatusCheckEvent → ManagerEvent
  lora_adapter_status_update : LoraAdapterStatusUpdate → Option ℕ → ManagerEvent
  load_lora_adapter : String → RuntimePod → Option ℕ → ManagerEvent

-- `runtime` of runtime.go. The model config item is kept as its text.
pub record Runtime : Type 0 where
  pub name : String
  pub mci : Option String
  pub is_dynamically_loaded_lora : Bool
  pub ready : Bool
  pub wait_chs : List ℕ
  pub last_err_reason : String
  pub pending_pull_model_requests : List PullModelEvent
  -- `none` is nil.
  pub addr_set : Option AddressSet
  pub replicas : ℕ
  pub gpu : ℕ

unfoldable pub new_pending_runtime : String → Option String → Runtime
new_pending_runtime name mci = record {
  name = name;
  mci = mci;
  is_dynamically_loaded_lora = false;
  ready = false;
  wait_chs = [];
  last_err_reason = "";
  pending_pull_model_requests = [];
  addr_set = none;
  replicas = 0;
  gpu = 0;
}

-- What is done with a channel: it is closed, after a reason where that is not empty; or an error is
-- sent, and it stays open.
pub data Signal : Type 0 where
  closes : ℕ → String → Signal
  errs : ℕ → String → Signal

-- A send on a nil channel waits for ever, and so does one on a channel that nobody receives from; a
-- nil channel that is closed panics.
pub data Stuck : Type 0 where
  blocks panics : Stuck
