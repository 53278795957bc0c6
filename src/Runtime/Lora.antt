-- ===== src/Runtime/Lora.antt =====
-- The handlers of the LoRA adapters (engine/internal/runtime/manager.go).
use inference_manager.Base.{
  List, Option, String, [], add, eqb, if◌then◌else◌, length, lookup, nat_eq, none, not, or_else,
  remove, some, string_eq, true, ℕ, ◌++◌, ◌==◌, ◌∷◌,
}
use inference_manager.Runtime.Events.{
  LoraAdapterPullStatusCheckEvent, LoraAdapterStatusUpdate, Runtime, RuntimePod, blocks, errs,
  lora_adapter_pull_status_check, lora_adapter_status_update, new_pending_runtime, panics,
  readiness_check,
}
use inference_manager.Runtime.Manager.{
  Manager, Outcome, addresses_of, become_ready, close_with, delete_runtime_unlocked, goes_on,
  no_client, no_pod_ip, pull_failed, put_runtime, signal, spawn, sticks, stops, target_not_checked,
  with_addr_set,
}
use inference_manager.Runtime.World.{World, host_port}
use inference_manager.Router.RouteMap.{model_eq}
use inference_manager.Runtime.AddressSet.{add_address, remove_address}

abbrev pub note_pod : String → Manager → Manager
note_pod name m = record m {
  update_in_progress_pod_names = add name m.update_in_progress_pod_names;
}

abbrev pub drop_pod : String → Manager → Manager
drop_pod name m = record m {
  update_in_progress_pod_names = remove name m.update_in_progress_pod_names;
}

-- An error is sent on the channel of the event; on one without a receiver the handler waits for ever.
unfoldable pub send_err : String → LoraAdapterPullStatusCheckEvent → Manager → Outcome
send_err err e m = elim e.event_wait_ch [
  | none ↦ sticks blocks m
  | some ch ↦ goes_on (drop_pod e.pod.name (signal (errs ch err ∷ []) m))
]

-- The adapter has been pulled: it is loaded, and checked.
unfoldable pub load_pulled : World → LoraAdapterPullStatusCheckEvent → Manager → Outcome
load_pulled w e m =
    if not (w.new_client e.model_id)
    then stops no_client (drop_pod e.pod.name m)
    else if not (w.load (w.address_for e.model_id e.pod.pod_ip) e.model_id)
    then goes_on (spawn (lora_adapter_pull_status_check e) m)
    else goes_on (
        spawn
          (readiness_check (record {
            model_id = e.model_id;
            address = w.address_for e.model_id e.pod.pod_ip;
            gpu = e.gpu;
            replicas = 0;
            pod = some e.pod;
            retry_count = 0;
            event_wait_ch = e.event_wait_ch;
          }))
          m)

unfoldable pub check_pulled : World → LoraAdapterPullStatusCheckEvent → Manager → Outcome
unfolding send_err load_pulled
check_pulled w e m = elim (w.pull_status (host_port e.pod.pod_ip m.puller_port) e.model_id) [
  | none ↦ send_err "check LoRA adapter pull status" e m
  | some pulled ↦
      if pulled then load_pulled w e m else goes_on (spawn (lora_adapter_pull_status_check e) m)
]

unfoldable pub process_lora_adapter_pull_status_check_event :
    World → LoraAdapterPullStatusCheckEvent → Manager → Outcome
unfolding send_err check_pulled
process_lora_adapter_pull_status_check_event w e m =
    let m' = note_pod e.pod.name m in
    elim (w.target_exists e.pod) [
      | none ↦ stops target_not_checked m'
      | some exists ↦
          if exists
          then check_pulled w e m'
          else send_err "lora adapter loading target pod no longer exists" e m'
    ]

-- The runtime of an adapter that a pod has and the manager does not know.
abbrev pub found_lora_runtime : World → String → String → ℕ → Runtime
found_lora_runtime w model_id addr gpu =
    become_ready addr gpu 1 (record (new_pending_runtime (w.get_name model_id model_id) none) {
      is_dynamically_loaded_lora = true;
    })

-- The state after some adapters, with those to try again; or the error.
pub data Updated : Type 0 where
  updated : Manager → List String → Updated
  no_client_for : Manager → Updated
  nil_address_set : Manager → Updated

-- One added adapter; a runtime that is on its way is tried again.
unfoldable pub add_adapter :
    World → LoraAdapterStatusUpdate → String → Manager → List String → Updated
add_adapter w u model_id m retries =
    let addr = w.address_for model_id u.pod_ip in
    let r = or_else (lookup model_id m.runtimes) (found_lora_runtime w model_id addr u.gpu) in
    if not (w.new_client model_id)
    then no_client_for m
    else if not r.ready
    then updated m (retries ++ model_id ∷ [])
    else elim (with_addr_set (add_address addr) r) [
      | none ↦ nil_address_set m
      | some r' ↦ updated (put_runtime model_id r' m) retries
    ]

abbrev pub and_update : Updated → (Manager → List String → Updated) → Updated
and_update (updated m rs) f = f m rs
and_update (no_client_for m) f = no_client_for m
and_update (nil_address_set m) f = nil_address_set m

unfoldable pub add_adapters :
    World → LoraAdapterStatusUpdate → List String → Manager → List String → Updated
unfolding add_adapter
add_adapters w u [] m retries = updated m retries
add_adapters w u (id ∷ ids) m retries =
    and_update (add_adapter w u id m retries) (add_adapters w u ids)

-- One removed adapter; a runtime without addresses is deleted. One that has never been ready has no
-- address set, and the handler panics.
unfoldable pub remove_adapter :
    World → LoraAdapterStatusUpdate → String → Manager → List String → Updated
remove_adapter w u model_id m retries =
    if not (w.new_client model_id) then no_client_for m else elim (lookup model_id m.runtimes) [
      | none ↦ updated m retries
      | some r ↦ elim (with_addr_set (remove_address (w.address_for model_id u.pod_ip)) r) [
        | none ↦ nil_address_set m
        | some r' ↦
            updated
              (if eqb (length (addresses_of r')) 0
                then delete_runtime_unlocked r' model_id m
                else put_runtime model_id r' m)
              retries
      ]
    ]

unfoldable pub remove_adapters :
    World → LoraAdapterStatusUpdate → List String → Manager → List String → Updated
unfolding remove_adapter
remove_adapters w u [] m retries = updated m retries
remove_adapters w u (id ∷ ids) m retries =
    and_update (remove_adapter w u id m retries) (remove_adapters w u ids)

-- The end of the handler.
abbrev pub update_done : LoraAdapterStatusUpdate → Option ℕ → Updated → Outcome
update_done u ch (no_client_for m) = stops no_client (signal (close_with "" ch) m)
update_done u ch (nil_address_set m) = sticks panics m
update_done u ch (updated m []) = goes_on (signal (close_with "" ch) m)
update_done u ch (updated m (id ∷ ids)) = goes_on (
    spawn
      (lora_adapter_status_update
        (record u { added_adapter_ids = id ∷ ids; removed_adapter_ids = [] }) ch)
      m)

unfoldable pub process_lora_adapter_status_update_event :
    World → LoraAdapterStatusUpdate → Option ℕ → Manager → Outcome
unfolding add_adapters remove_adapters
process_lora_adapter_status_update_event w u ch m =
    if u.pod_ip == ""
    then stops no_pod_ip (signal (close_with "" ch) m)
    else update_done u ch (
        and_update (add_adapters w u u.added_adapter_ids m [])
          (remove_adapters w u u.removed_adapter_ids))

unfoldable pub process_load_lora_adapter_event :
    World → String → RuntimePod → Option ℕ → Manager → Outcome
process_load_lora_adapter_event w model_id pod ch m =
    if not (w.pull (host_port pod.pod_ip m.puller_port) model_id)
    then stops pull_failed m
    else goes_on (
        spawn
          (lora_adapter_pull_status_check
            (record { model_id = model_id; pod = pod; gpu = 0; event_wait_ch = ch }))
          m)
