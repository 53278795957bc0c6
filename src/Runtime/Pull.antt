-- ===== src/Runtime/Pull.antt =====
-- `processPullModelEvent` and `deployRuntime` (engine/internal/runtime/manager.go).
use inference_manager.Base.{
  List, Option, String, [], add, false, if◌then◌else◌, lookup, nat_eq, none, not, some, string_eq,
  true, ℕ, ◌++◌, ◌==◌, ◌∷◌,
}
use inference_manager.Runtime.Events.{
  PullModelEvent, Runtime, lora_adapter_pull_status_check, new_pending_runtime,
  reconcile_stateful_set,
}
use inference_manager.Runtime.Manager.{
  Manager, ModelInfo, Outcome, and_then, close_with, deploy_failed, goes_on, model_not_got,
  no_client, no_target, pull_failed, put_runtime, register_failed, signal, spawn, stops,
}
use inference_manager.Runtime.World.{World, host_port}
use inference_manager.Infprocessor.Task.{model}
use inference_manager.Router.RouteMap.{model_eq}

abbrev pub chs_of : Option ℕ → List ℕ
chs_of none = []
chs_of (some ch) = ch ∷ []

abbrev pub wait_for : Option ℕ → Runtime → Runtime
wait_for ch r = record r { wait_chs = r.wait_chs ++ chs_of ch }

-- The runtime is there: it is ready, or has failed, or is on its way.
unfoldable pub pull_known : PullModelEvent → Runtime → Manager → Manager
pull_known e r m =
    if r.ready
    then signal (close_with "" e.ready_wait_ch) m
    else if not (r.last_err_reason == "")
    then signal (close_with r.last_err_reason e.ready_wait_ch) m
    else put_runtime e.model_id (wait_for e.ready_wait_ch r) m

-- `deployRuntime`.
unfoldable pub deploy_runtime : World → ModelInfo → Manager → Outcome
deploy_runtime w model m =
    if not (w.new_client model.id) then stops no_client m else elim (w.deploy model false) [
      | none ↦ stops deploy_failed m
      | some sts ↦
          if not (w.register sts)
          then stops register_failed m
          else goes_on
              (spawn (reconcile_stateful_set sts none) (record m { scalers = add sts m.scalers }))
    ]

-- The kinds of answer of `isDynamicLoRAloadingApplicable`.
pub data LoraLoading : Type 0 where
  lora_no_client not_applicable : LoraLoading
  applicable : String → LoraLoading

unfoldable pub is_dynamic_lora_loading_applicable : World → Manager → ModelInfo → LoraLoading
is_dynamic_lora_loading_applicable w m model =
    if not m.enable_dynamic_lora_loading
    then not_applicable
    else if not (w.new_client model.id)
    then lora_no_client
    else if not (w.is_vllm model.id)
    then not_applicable
    else if model.is_base_model
    then not_applicable
    else applicable model.base_model_id

-- A new runtime of its own.
unfoldable pub pull_plain : World → PullModelEvent → ModelInfo → Manager → Outcome
unfolding deploy_runtime
pull_plain w e model m = deploy_runtime w model (
    put_runtime e.model_id
      (wait_for e.ready_wait_ch (
        new_pending_runtime (w.get_name e.model_id e.model_id)
          (some (w.model_config_item e.model_id model))))
      m)

-- The end of a pull of an adapter: the puller of a pod is asked for it.
unfoldable pub start_lora_pull : World → PullModelEvent → Runtime → Manager → Outcome
start_lora_pull w e br m = elim (w.select_target br.name) [
  | none ↦ stops no_target m
  | some pod ↦
      if not (w.pull (host_port pod.pod_ip m.puller_port) e.model_id)
      then stops pull_failed m
      else goes_on (
          spawn
            (lora_adapter_pull_status_check
              (record { model_id = e.model_id; pod = pod; gpu = br.gpu; event_wait_ch = none }))
            m)
]

abbrev pub new_lora_runtime : World → PullModelEvent → Runtime
new_lora_runtime w e =
    record (wait_for e.ready_wait_ch
      (new_pending_runtime (w.get_name e.model_id e.model_id) none)) {
        is_dynamically_loaded_lora = true;
      }

-- With the runtime of the base model: the request waits for it, or the adapter is loaded.
unfoldable pub pull_on_base : World → PullModelEvent → String → Runtime → Manager → Outcome
unfolding start_lora_pull
pull_on_base w e base br m =
    if not br.ready
    then goes_on (
        put_runtime base
          (record br { pending_pull_model_requests = br.pending_pull_model_requests ++ e ∷ [] }) m)
    else start_lora_pull w e br (put_runtime e.model_id (new_lora_runtime w e) m)

-- The new runtime of a base model that is not there.
abbrev pub new_base_runtime : World → PullModelEvent → String → ModelInfo → Runtime
new_base_runtime w e base model =
    new_pending_runtime (w.get_name e.model_id base) (some (w.model_config_item e.model_id model))

-- The base model is not there: its runtime is deployed. On a failed `GetModel` the mutex stays
-- locked.
unfoldable pub pull_base : World → PullModelEvent → String → Option ModelInfo → Manager → Outcome
unfolding deploy_runtime pull_on_base
pull_base w e base none m = stops model_not_got (record m { locked = true })
pull_base w e base (some model) m =
    and_then (deploy_runtime w model (put_runtime base (new_base_runtime w e base model) m))
      (pull_on_base w e base (new_base_runtime w e base model))

-- The adapter of a base model.
unfoldable pub pull_lora : World → PullModelEvent → String → Manager → Outcome
unfolding pull_on_base pull_base
pull_lora w e base m = elim (lookup base m.runtimes) [
  | some br ↦ pull_on_base w e base br m
  | none ↦ pull_base w e base (w.get_model base) m
]

abbrev pub pull_applicable : World → PullModelEvent → ModelInfo → LoraLoading → Manager → Outcome
pull_applicable w e model lora_no_client m = stops no_client m
pull_applicable w e model not_applicable m = pull_plain w e model m
pull_applicable w e model (applicable base) m = pull_lora w e base m

unfoldable pub pull_new : World → PullModelEvent → Manager → Outcome
unfolding is_dynamic_lora_loading_applicable pull_plain pull_lora
pull_new w e m = elim (w.get_model e.model_id) [
  | none ↦ stops model_not_got (record m { locked = true })
  | some model ↦ pull_applicable w e model (is_dynamic_lora_loading_applicable w m model) m
]

unfoldable pub process_pull_model_event : World → PullModelEvent → Manager → Outcome
unfolding pull_known pull_new
process_pull_model_event w e m =
    if not (w.new_client e.model_id)
    then stops no_client m
    else elim (lookup e.model_id m.runtimes) [
      | some r ↦ goes_on (pull_known e r m)
      | none ↦ pull_new w e m
    ]
