-- ===== src/Pods/Adapters/Rebalancer.antt =====
-- `LoRARebalancer` of engine/internal/runtime/lora_rebalancer.go: an adapter of one pod is loaded in
-- all pods of its base model.
use inference_manager.Base.{
  List, Option, String, [], add, contains, delete, if◌then◌else◌, insert, lookup, nat_eq, none,
  or_else, some, string_eq, ◌++◌, ◌==◌, ◌∷◌,
}
use inference_manager.Pods.{Pod}
use inference_manager.Pods.Adapters.{AdapterStatus, PodStatus}
use inference_manager.Pods.Adapters.Reconciler.{ids_of}
use inference_manager.Infprocessor.Schedule.{found}
use inference_manager.Router.RouteMap.{model_eq}
use inference_manager.Router.Tenants.{names}
pub mod Loads

abbrev pub Pods : Type 0
Pods = List (String × Pod)

unfoldable pub put_pod : Pod → Pods → Pods
put_pod pod m = insert pod.name pod m

unfoldable pub drop_known_pod : String → Pods → Pods
drop_known_pod name m = delete name m

-- `buildStatusMap`: the statuses by base model.
unfoldable pub build_status_map :
    (String → Option AdapterStatus)
    → Pods
    → List (String × List PodStatus)
    → List (String × List PodStatus)
build_status_map get [] found = found
build_status_map get ((k, pod) ∷ m) found = build_status_map get m (elim (get pod.pod_ip) [
  | none ↦ found
  | some l ↦
      if l.base_model_id == ""
      then found
      else insert l.base_model_id
          (or_else (lookup l.base_model_id found) [] ++ record { pod = pod; lstatus = some l } ∷ [])
          found
])

-- The names of the pods by adapter.
unfoldable pub note_adapters :
    String → List String → List (String × List String) → List (String × List String)
note_adapters name [] m = m
note_adapters name (id ∷ ids) m =
    note_adapters name ids (insert id (add name (or_else (lookup id m) [])) m)

unfoldable pub group_by_adapter :
    List PodStatus → List (String × List String) → List (String × List String)
unfolding note_adapters
group_by_adapter [] m = m
group_by_adapter (s ∷ ss) m = group_by_adapter ss (note_adapters s.pod.name (ids_of s.lstatus) m)

-- The pods that do not have the adapter.
unfoldable pub loads_for : String → List String → List String → List (String × String)
loads_for id having [] = []
loads_for id having (name ∷ names) =
    let rest = loads_for id having names in if contains name having then rest else (id, name) ∷ rest

unfoldable pub loads_of : List (String × List String) → List String → List (String × String)
unfolding loads_for
loads_of [] names = []
loads_of ((id, having) ∷ m) names = loads_for id having names ++ loads_of m names

-- The names in the map of the statuses by name.
unfoldable pub names_of : List PodStatus → List String
names_of [] = []
names_of (s ∷ ss) = add s.pod.name (names_of ss)

-- `rebalance`: what is loaded, an adapter and the name of a pod.
unfoldable pub rebalance : List PodStatus → List (String × String)
unfolding group_by_adapter loads_of names_of
rebalance ss = loads_of (group_by_adapter ss []) (names_of ss)
