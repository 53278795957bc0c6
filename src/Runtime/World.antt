-- ===== src/Runtime/World.antt =====
-- What the handlers of the events get from elsewhere while one event is processed: the clients of
-- the runtimes, the model manager, Kubernetes, the autoscaler, and the LoRA loader. They are
-- interfaces in engine/internal/runtime/manager.go and client.go; here they are a record of answers.
use Prim.Native.String.{◌++◌}
use inference_manager.Base.{
  Bool, List, Option, String, [], eqb, if◌then◌else◌, ltb, nat_eq, none, some, string_eq, ℕ, ◌&&◌,
  ◌+◌, ◌==◌, ◌∷◌,
}
use inference_manager.Runtime.Events.{RuntimePod}
use inference_manager.Runtime.Manager.{ModelInfo}
use inference_manager.Router.RouteMap.{model_eq}

-- The model config annotation of a stateful set.
pub data ConfigAnnotation : Type 0 where
  missing_config unreadable_config : ConfigAnnotation
  model_config : String → ConfigAnnotation

-- What is read of a pod of a stateful set.
pub record ChildPod : Type 0 where
  pub revision : String
  pub unschedulable : Bool

pub record StatefulSet : Type 0 where
  pub name : String
  pub model_id : String
  pub config : ConfigAnnotation
  pub status_replicas : ℕ
  pub ready_replicas : ℕ
  pub current_revision : String
  -- The GPU limit of each container that has one.
  pub gpu_limits : List ℕ

pub data Fetched : Type 0 where
  found_set : StatefulSet → Fetched
  set_not_found fetch_failed : Fetched

pub record World : Type 0 where
  -- `rtClientFactory.New` for a model, and what its client says.
  pub new_client : String → Bool
  pub get_name : String → String → String
  pub address_for : String → String → String
  pub is_vllm : String → Bool
  pub model_config_item : String → ModelInfo → String
  -- `DeployRuntime`: the name of the stateful set; the flag says that it is an update.
  pub deploy : ModelInfo → Bool → Option String
  pub delete_runtime : String → Bool
  pub get_model : String → Option ModelInfo
  -- `autoscaler.Register`.
  pub register : String → Bool
  pub get_stateful_set : String → Fetched
  pub list_pods : String → Option (List ChildPod)
  -- `runtimeReadinessChecker.check`.
  pub check : String → Bool
  pub select_target : String → Option RuntimePod
  pub target_exists : RuntimePod → Option Bool
  -- `pullModel`, `checkModelPullStatus`, `load` and `unload` at an address.
  pub pull : String → String → Bool
  pub pull_status : String → String → Option Bool
  pub load : String → String → Bool
  pub unload : String → String → Bool

-- `getGPU`.
unfoldable pub get_gpu : List ℕ → ℕ
get_gpu [] = 0
get_gpu (n ∷ ns) = n + get_gpu ns

-- The loop of `allChildrenUnschedulable`: the pods of the revision, and those of them that are
-- unschedulable.
unfoldable pub count_children : String → List ChildPod → ℕ → ℕ → ℕ × ℕ
count_children revision [] cnt unschedulable = (cnt, unschedulable)
count_children revision (p ∷ pods) cnt unschedulable =
    let same = p.revision == revision in
    count_children revision pods (if same then cnt + 1 else cnt)
      (if same && p.unschedulable then unschedulable + 1 else unschedulable)

unfoldable pub all_children_unschedulable : World → StatefulSet → Option Bool
unfolding count_children
all_children_unschedulable w sts = elim (w.list_pods sts.name) [
  | none ↦ none
  | some pods ↦
      let (cnt, unschedulable) = count_children sts.current_revision pods 0 0 in
      some (ltb 0 unschedulable && eqb cnt unschedulable)
]

-- `fmt.Sprintf("%s:%d", host, port)`.
abbrev pub host_port : String → String → String
host_port host port = host ++ ":" ++ port
