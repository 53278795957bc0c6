-- ===== src/Pods/Adapters.antt =====
-- The LoRA adapters that pods have loaded (engine/internal/runtime/lora_helpers.go,
-- lora_reconciler.go and lora_rebalancer.go).
use inference_manager.Base.{
  Bool, List, Option, String, [], add, eqb, if◌then◌else◌, length, nat_eq, none, not, some,
  string_eq, ◌&&◌, ◌==◌, ◌∷◌,
}
use inference_manager.Pods.{Pod, is_pod_ready}
use inference_manager.Infprocessor.Schedule.{found}
use inference_manager.Router.RouteMap.{model_eq}
pub mod Reconciler
pub mod Rebalancer

-- A model of vLLM's list: an adapter has a parent.
pub record ServedModel : Type 0 where
  pub id : String
  pub has_parent : Bool

pub record AdapterStatus : Type 0 where
  pub base_model_id : String
  pub adapter_ids : List String

pub record PodStatus : Type 0 where
  pub pod : Pod
  pub lstatus : Option AdapterStatus

-- The loop of `get`, with the translation of names back to the original ones.
unfoldable pub collect : (String → String) → List ServedModel → AdapterStatus → AdapterStatus
collect original_name [] s = s
collect original_name (x ∷ xs) s = collect original_name xs (
    if not x.has_parent
    then record s { base_model_id = x.id }
    else record s { adapter_ids = add (original_name x.id) s.adapter_ids })

-- `loraAdapterStatusGetterImpl.get`; `none` is an error.
unfoldable pub get_status : (String → String) → Option (List ServedModel) → Option AdapterStatus
unfolding collect
get_status original_name none = none
get_status original_name (some models) =
    let s = collect original_name models (record { base_model_id = ""; adapter_ids = [] }) in
    if s.base_model_id == "" && not (eqb (length s.adapter_ids) 0) then none else some s

-- The loop of `selectTarget`: the first pod with an address, and the first that is ready.
unfoldable pub select_from : List Pod → Option Pod → Option Pod
select_from [] found = found
select_from (p ∷ ps) found =
    let rest = select_from ps (elim found [ none ↦ some p | some q ↦ some q ]) in
    let skipped = select_from ps found in
    if p.pod_ip == "" then skipped else if is_pod_ready p then some p else rest

unfoldable pub select_target : List Pod → Option Pod
unfolding select_from
select_target ps = select_from ps none
