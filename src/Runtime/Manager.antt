-- ===== src/Runtime/Manager.antt =====
-- The runtime manager of engine/internal/runtime/manager.go: its state, what the callers of the
-- engine ask of it, and the parts that the handlers of the events share.
use inference_manager.Base.{
  Bool, List, Option, String, [], delete, false, if◌then◌else◌, insert, lookup, map, nat_eq, none,
  not, some, string_eq, true, ℕ, ◌*◌, ◌++◌, ◌==◌, ◌∷◌,
}
use inference_manager.Infprocessor.State.{EngineModel, StatusDetails}
use inference_manager.Runtime.AddressSet.{
  AddressSet, add_address, blacklist_address, get_address, new_runtime_address_set,
}
use inference_manager.Runtime.Events.{
  ManagerEvent, PullModelEvent, Runtime, Signal, Stuck, blocks, closes, panics, pull_model,
}
use inference_manager.Router.RouteMap.{model_eq}

-- What the manager reads of a model.
pub record ModelInfo : Type 0 where
  pub id : String
  pub is_base_model : Bool
  pub base_model_id : String

pub record Manager : Type 0 where
  pub enable_dynamic_lora_loading : Bool
  -- In decimal digits.
  pub puller_port : String
  pub readiness_check_max_retry_count : ℕ
  -- By model ID.
  pub runtimes : List (String × Runtime)
  -- The events that goroutines wait to send.
  pub spawned : List ManagerEvent
  pub update_in_progress_pod_names : List String
  -- Whether the mutex is held by a handler that has returned.
  pub locked : Bool
  -- What was done with the channels, oldest first.
  pub signals : List Signal
  -- The stateful sets with a scaler.
  pub scalers : List String

unfoldable pub new_manager : Bool → String → Manager
new_manager enable_dynamic_lora_loading puller_port = record {
  enable_dynamic_lora_loading = enable_dynamic_lora_loading;
  puller_port = puller_port;
  readiness_check_max_retry_count = 3;
  runtimes = [];
  spawned = [];
  update_in_progress_pod_names = [];
  locked = false;
  signals = [];
  scalers = [];
}

-- The errors that end the state machine.
pub data ManagerError : Type 0 where
  no_client model_not_got deploy_failed register_failed unload_failed delete_failed : ManagerError
  set_not_got pods_not_listed bad_config no_target target_not_checked pull_failed no_pod_ip :
      ManagerError

pub data Outcome : Type 0 where
  goes_on : Manager → Outcome
  stops : ManagerError → Manager → Outcome
  sticks : Stuck → Manager → Outcome

abbrev pub and_then : Outcome → (Manager → Outcome) → Outcome
and_then (goes_on m) f = f m
and_then (stops e m) f = stops e m
and_then (sticks s m) f = sticks s m

-- A handler that is stuck while it holds the mutex.
abbrev pub under_lock : Outcome → Outcome
under_lock (goes_on m) = goes_on m
under_lock (stops e m) = stops e m
under_lock (sticks s m) = sticks s (record m { locked = true })

abbrev pub spawn : ManagerEvent → Manager → Manager
spawn e m = record m { spawned = m.spawned ++ e ∷ [] }

abbrev pub signal : List Signal → Manager → Manager
signal ss m = record m { signals = m.signals ++ ss }

abbrev pub put_runtime : String → Runtime → Manager → Manager
put_runtime model_id r m = record m { runtimes = insert model_id r m.runtimes }

-- Closes a channel that may be one without a receiver.
abbrev pub close_with : String → Option ℕ → List Signal
close_with reason none = []
close_with reason (some ch) = closes ch reason ∷ []

abbrev pub close_all : String → List ℕ → List Signal
close_all reason [] = []
close_all reason (ch ∷ chs) = closes ch reason ∷ close_all reason chs

-- The second loop of `closeWaitChs`.
pub data Closing : Type 0 where
  closed_all : List Signal → Closing
  stuck_at : Stuck → List Signal → Closing

unfoldable pub close_pending : String → List PullModelEvent → Closing
close_pending reason [] = closed_all []
close_pending reason (req ∷ reqs) = elim req.ready_wait_ch [
  | none ↦ stuck_at (if reason == "" then panics else blocks) []
  | some ch ↦ elim (close_pending reason reqs) [
    | stuck_at s ss ↦ stuck_at s (closes ch reason ∷ ss)
    | closed_all ss ↦ closed_all (closes ch reason ∷ ss)
  ]
]

unfoldable pub closed_runtime : String → Runtime → Runtime
closed_runtime reason r = record r {
  wait_chs = [];
  last_err_reason = reason;
  pending_pull_model_requests = [];
}

abbrev pub end_closing : String → String → Runtime → Manager → Closing → Outcome
end_closing reason model_id r m (stuck_at s ss) = sticks s (
    put_runtime model_id (record r { wait_chs = []; last_err_reason = reason })
      (signal (close_all reason r.wait_chs ++ ss) m))
end_closing reason model_id r m (closed_all ss) =
    goes_on (
      put_runtime model_id (closed_runtime reason r) (signal (close_all reason r.wait_chs ++ ss) m))

-- `closeWaitChs` on the runtime of a model, which stays in the map.
unfoldable pub close_wait_chs : String → String → Runtime → Manager → Outcome
unfolding close_pending
close_wait_chs reason model_id r m =
    end_closing reason model_id r m (close_pending reason r.pending_pull_model_requests)

-- `requeuePendingPullModelRequestsUnlocked`: the requests go back to the state machine.
unfoldable pub requeue_pending : Runtime → Manager → Manager
requeue_pending r m = record m {
  spawned = m.spawned ++ map pull_model r.pending_pull_model_requests;
}

-- `deleteRuntimeUnlocked`. The pending requests are taken first, so only the waiters are closed.
unfoldable pub delete_runtime_unlocked : Runtime → String → Manager → Manager
unfolding requeue_pending
delete_runtime_unlocked r model_id m =
    let m' : Manager = requeue_pending r (signal (close_all "runtime is deleted" r.wait_chs) m) in
    record m' { runtimes = delete model_id m.runtimes }

unfoldable pub delete_runtime_by_model_id : String → Manager → Manager
unfolding delete_runtime_unlocked
delete_runtime_by_model_id model_id m = elim (lookup model_id m.runtimes) [
  | none ↦ m
  | some r ↦ delete_runtime_unlocked r model_id m
]

-- The first runtime of a name.
unfoldable pub find_by_name : String → List (String × Runtime) → Option (String × Runtime)
find_by_name name [] = none
find_by_name name ((id, r) ∷ m) =
    let rest = find_by_name name m in if r.name == name then some (id, r) else rest

unfoldable pub delete_runtime_by_name : String → Manager → Manager
unfolding find_by_name delete_runtime_unlocked
delete_runtime_by_name name m = elim (find_by_name name m.runtimes) [
  | none ↦ m
  | some x ↦ delete_runtime_unlocked x.1 x.0 m
]

-- `addresses`, `addAddress` and `removeAddress` of a runtime.
abbrev pub addresses_of : Runtime → List String
addresses_of r = elim r.addr_set [ none ↦ [] | some s ↦ s.addresses ]

-- The address set of a runtime that is not ready is nil: a panic.
abbrev pub with_addr_set : (AddressSet → AddressSet) → Runtime → Option Runtime
with_addr_set f r = elim r.addr_set [
  | none ↦ none
  | some s ↦ some (record r { addr_set = some (f s) })
]

unfoldable pub become_ready : String → ℕ → ℕ → Runtime → Runtime
become_ready address gpu replicas r = record r {
  ready = true;
  addr_set = some (add_address address new_runtime_address_set);
  gpu = gpu;
  replicas = replicas;
}

-- What a caller gets that takes the mutex: `waits` where a handler has kept it.
pub data Reply {ℓ} (A : Type ℓ) : Type ℓ where
  gets : A → Reply A
  fails_no_runtime fails_not_ready fails_no_address waits : Reply A

abbrev pub address_of : Manager → String → Runtime → Option AddressSet → ℕ → Manager × Reply String
address_of m model_id r none now = (m, fails_no_address)
address_of m model_id r (some s) now =
    let (s', a) = get_address now s in
    (
      put_runtime model_id (record r { addr_set = some s' }) m,
      elim a [ none ↦ fails_no_address | some addr ↦ gets addr ],
    )

unfoldable pub get_llm_address : String → ℕ → Manager → Manager × Reply String
get_llm_address model_id now m =
    if m.locked then (m, waits) else elim (lookup model_id m.runtimes) [
      | none ↦ (m, fails_no_runtime)
      | some r ↦
          if not r.ready then (m, fails_not_ready) else address_of m model_id r r.addr_set now
    ]

unfoldable pub blacklist_llm_address : String → String → ℕ → Manager → Manager × Reply (Unit {0})
blacklist_llm_address model_id address now m =
    if m.locked then (m, waits) else elim (lookup model_id m.runtimes) [
      | none ↦ (m, fails_no_runtime)
      | some r ↦
          if not r.ready
          then (m, fails_not_ready)
          else elim (with_addr_set (blacklist_address address now) r) [
            | none ↦ (m, fails_no_address)
            | some r' ↦ (put_runtime model_id r' m, gets tt)
          ]
    ]

-- `ListModels`, with what the pod monitor says of a model.
unfoldable pub list_models : (String → StatusDetails) → List (String × Runtime) → List EngineModel
list_models model_status [] = []
list_models model_status ((id, r) ∷ m) =
    record {
      id = id;
      is_ready = r.ready;
      in_progress_task_count = 0;
      gpu_allocated = r.gpu * r.replicas;
      is_dynamically_loaded_lora = r.is_dynamically_loaded_lora;
      status_details = some (model_status id);
    }
    ∷ list_models model_status m
