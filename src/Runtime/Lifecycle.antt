-- ===== src/Runtime/Lifecycle.antt =====
-- The handlers that delete, update and reconcile a runtime (engine/internal/runtime/manager.go).
use inference_manager.Base.{
  Bool, List, Option, String, [], add, eqb, false, if◌then◌else◌, lookup, nat_eq, none, not, remove,
  some, string_eq, true, ℕ, ◌&&◌, ◌==◌, ◌∷◌,
}
use inference_manager.Runtime.Events.{Runtime, new_pending_runtime, readiness_check}
use inference_manager.Runtime.Manager.{
  Manager, Outcome, addresses_of, bad_config, close_wait_chs, close_with, delete_failed,
  delete_runtime_by_model_id, delete_runtime_by_name, deploy_failed, goes_on, model_not_got,
  no_client, pods_not_listed, put_runtime, register_failed, set_not_got, signal, spawn, sticks,
  stops, under_lock, unload_failed,
}
use inference_manager.Runtime.World.{
  ConfigAnnotation, Fetched, StatefulSet, World, all_children_unschedulable, fetch_failed,
  found_set, get_gpu, missing_config, model_config, set_not_found, unreadable_config,
}
use inference_manager.Infprocessor.Task.{model}
use inference_manager.Router.RouteMap.{model_eq}

unfoldable pub unload_all : World → String → List String → Bool
unload_all w model_id [] = true
unload_all w model_id (addr ∷ addrs) = w.unload addr model_id && unload_all w model_id addrs

-- `processDeleteModelEvent` after its deferred `close`.
unfoldable pub delete_known : World → String → Runtime → Manager → Outcome
unfolding unload_all
delete_known w model_id r m =
    if r.is_dynamically_loaded_lora
    then if unload_all w model_id (addresses_of r)
      then goes_on (delete_runtime_by_model_id model_id m)
      else stops unload_failed m
    else if not (w.new_client model_id)
    then stops no_client m
    else if not (w.delete_runtime model_id)
    then stops delete_failed m
    else goes_on m

abbrev pub deferred_close : Option ℕ → Outcome → Outcome
deferred_close ch (goes_on m) = goes_on (signal (close_with "" ch) m)
deferred_close ch (stops e m) = stops e (signal (close_with "" ch) m)
deferred_close ch (sticks s m) = sticks s m

unfoldable pub process_delete_model_event : World → String → Option ℕ → Manager → Outcome
unfolding delete_known
process_delete_model_event w model_id ch m =
    deferred_close ch (elim (lookup model_id m.runtimes) [
      | none ↦ goes_on m
      | some r ↦ delete_known w model_id r m
    ])

-- `processUpdateModelEvent`.
abbrev pub same_text : Option String → String → Bool
same_text none t = false
same_text (some s) t = s == t

unfoldable pub update_known : World → String → Runtime → Manager → Outcome
update_known w model_id r m = elim (w.get_model model_id) [
  | none ↦ stops model_not_got m
  | some model ↦
      if not (w.new_client model_id)
      then stops no_client m
      else if same_text r.mci (w.model_config_item model_id model)
      then goes_on m
      else elim (w.deploy model true) [
        | none ↦ stops deploy_failed m
        | some _ ↦
            goes_on (
              put_runtime model_id (record r { mci = some (w.model_config_item model_id model) }) m)
      ]
]

unfoldable pub process_update_model_event : World → String → Option ℕ → Manager → Outcome
unfolding update_known
process_update_model_event w model_id ch m = deferred_close ch (elim (lookup model_id m.runtimes) [
  | none ↦ goes_on m
  | some r ↦ elim r.mci [ none ↦ goes_on m | some _ ↦ update_known w model_id r m ]
])

-- `processReconcileStatefulSetEvent`: the runtime of the set, made where it is not there.
unfoldable pub mci_of : ConfigAnnotation → Option (Option String)
mci_of missing_config = some none
mci_of unreadable_config = none
mci_of (model_config text) = some (some text)

-- The runtime is pending, and a replica of the set is ready or none is.
unfoldable pub reconcile_pending : World → StatefulSet → Bool → Runtime → Manager → Outcome
reconcile_pending w sts unschedulable rt m =
    if eqb sts.ready_replicas 0
    then if not unschedulable
      then goes_on m
      else under_lock (close_wait_chs "Unschedulable" sts.model_id rt m)
    else if not (w.new_client sts.model_id)
    then stops no_client m
    else goes_on (
        spawn
          (readiness_check (record {
            model_id = sts.model_id;
            address = w.address_for sts.model_id rt.name;
            gpu = get_gpu sts.gpu_limits;
            replicas = sts.ready_replicas;
            pod = none;
            retry_count = 0;
            event_wait_ch = none;
          }))
          m)

unfoldable pub reconcile_known : World → StatefulSet → Bool → Runtime → Manager → Outcome
unfolding reconcile_pending
reconcile_known w sts unschedulable rt m =
    if rt.ready
    then if eqb sts.status_replicas 0
      then goes_on (put_runtime sts.model_id (record rt { ready = false }) m)
      else goes_on (put_runtime sts.model_id (record rt { replicas = sts.status_replicas }) m)
    else reconcile_pending w sts unschedulable rt m

unfoldable pub reconcile_found : World → StatefulSet → Bool → Manager → Outcome
unfolding reconcile_known mci_of
reconcile_found w sts unschedulable m = elim (lookup sts.model_id m.runtimes) [
  | some rt ↦ reconcile_known w sts unschedulable rt m
  | none ↦ elim (mci_of sts.config) [
    | none ↦ stops bad_config m
    | some mci ↦
        let rt = new_pending_runtime sts.name mci in
        let m' : Manager = put_runtime sts.model_id rt m in
        if not (w.register sts.name)
        then stops register_failed m'
        else reconcile_known w sts unschedulable rt
            (record m' { scalers = add sts.name m'.scalers })
  ]
]

-- Whether the pods of the set are all unschedulable; it is asked only where no replica is ready.
abbrev pub unschedulable_of : World → StatefulSet → Option Bool
unschedulable_of w sts =
    if eqb sts.ready_replicas 0 then all_children_unschedulable w sts else some false

unfoldable pub reconcile_fetched : World → String → Fetched → Manager → Outcome
unfolding reconcile_found
reconcile_fetched w name fetch_failed m = stops set_not_got m
reconcile_fetched w name set_not_found m =
    goes_on (record (delete_runtime_by_name name m) { scalers = remove name m.scalers })
reconcile_fetched w name (found_set sts) m = elim (unschedulable_of w sts) [
  | none ↦ stops pods_not_listed m
  | some unschedulable ↦ reconcile_found w sts unschedulable m
]

unfoldable pub reconcile_set : World → String → Manager → Outcome
unfolding reconcile_fetched
reconcile_set w name m = reconcile_fetched w name (w.get_stateful_set name) m

unfoldable pub process_reconcile_stateful_set_event : World → String → Option ℕ → Manager → Outcome
unfolding reconcile_set
process_reconcile_stateful_set_event w name ch m = deferred_close ch (reconcile_set w name m)
