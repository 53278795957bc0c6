-- ===== src/Runtime/Machine/Settled/Checks.antt =====
-- What the readiness checks and the handlers of the LoRA adapters leave behind.
use inference_manager.Base.{
  List, Option, Option-cases, String, [], arith, inl, inr, lookup, nat_eq, none, or_else, refl,
  some, string_eq, true, ℕ, ◌∷◌, ◌≡◌,
}
use inference_manager.Runtime.Events.{
  LoraAdapterPullStatusCheckEvent, LoraAdapterStatusUpdate, ReadinessCheckEvent, Runtime,
  RuntimePod, new_pending_runtime,
}
use inference_manager.Runtime.Manager.{
  Manager, become_ready, close_wait_chs, close_with, requeue_pending, signal, with_addr_set,
}
use inference_manager.Router.RouteMap.{model_eq}
use inference_manager.Runtime.AddressSet.{AddressSet, add_address, remove_address}
use inference_manager.Runtime.Lora.{
  Updated, add_adapter, add_adapters, and_update, check_pulled, found_lora_runtime, load_pulled,
  nil_address_set, no_client_for, note_pod, process_load_lora_adapter_event,
  process_lora_adapter_pull_status_check_event, process_lora_adapter_status_update_event,
  remove_adapter, remove_adapters, send_err, update_done, updated,
}
use inference_manager.Runtime.Machine.Settled.{
  Closable, IsSettled, IsSettled-and_then, IsSettled-close_wait_chs,
  IsSettled-delete_runtime_unlocked, IsSettled-put_runtime, all_settled-lookup, settled, state_of,
}
use inference_manager.Runtime.Readiness.{
  forget_pod, give_up, not_reachable, process_readiness_check_event, reachable,
}
use inference_manager.Runtime.World.{World}

IsSettled-forget_pod :
    (p : Option RuntimePod) (m : Manager) → IsSettled m → IsSettled (forget_pod p m)
IsSettled-forget_pod none m h = h
IsSettled-forget_pod (some p) m h = h

IsSettled-give_up :
    (e : ReadinessCheckEvent) (rt : Runtime) (m : Manager)
    → Closable rt
    → IsSettled m
    → IsSettled (state_of (give_up e rt m))
unfolding give_up
IsSettled-give_up e rt m ok h =
    IsSettled-and_then (close_wait_chs "runtime is unreachable" e.model_id rt m) _
      (IsSettled-close_wait_chs "runtime is unreachable" e.model_id rt m ok h)
      (λ m' h'. IsSettled-forget_pod e.pod (signal (close_with "" e.event_wait_ch) m') h')

settled-open : (r : Runtime) → settled r ≡ true → Closable r
unfolding settled
settled-open r h = ground arith

IsSettled-not_reachable :
    (e : ReadinessCheckEvent) (rt : Runtime) (m : Manager)
    → settled rt ≡ true
    → IsSettled m
    → IsSettled (state_of (not_reachable e rt m))
unfolding not_reachable
IsSettled-not_reachable e rt m a h = ground (arith, IsSettled-give_up e rt m (settled-open rt a))

IsSettled-reachable :
    (e : ReadinessCheckEvent) (rt : Runtime) (m : Manager)
    → IsSettled m
    → IsSettled (state_of (reachable e rt m))
unfolding reachable become_ready requeue_pending
IsSettled-reachable e rt m h =
    let r : Runtime = record (become_ready e.address e.gpu e.replicas rt) {
      pending_pull_model_requests = [];
    } in
    let m' = requeue_pending rt (forget_pod e.pod m) in
    IsSettled-and_then (close_wait_chs "" e.model_id r m') _
      (IsSettled-close_wait_chs "" e.model_id r m' (inr (refl, refl))
        (IsSettled-forget_pod e.pod m h))
      (λ m'' h''. h'')

pub process_readiness_check_event-IsSettled :
    (w : World) (e : ReadinessCheckEvent) (m : Manager)
    → IsSettled m
    → IsSettled (state_of (process_readiness_check_event w e m))
unfolding process_readiness_check_event
process_readiness_check_event-IsSettled w e m h =
    elim (Option-cases (lookup e.model_id m.runtimes)) [
      | inl n ↦
          ground (arith, IsSettled-forget_pod e.pod (signal (close_with "" e.event_wait_ch) m))
      | inr (rt, n) ↦ ground (
        arith,
        IsSettled-reachable e rt m,
        IsSettled-not_reachable e rt m,
        all_settled-lookup e.model_id m.runtimes rt,
      )
    ]

IsSettled-send_err :
    (err : String) (e : LoraAdapterPullStatusCheckEvent) (m : Manager)
    → IsSettled m
    → IsSettled (state_of (send_err err e m))
unfolding send_err
IsSettled-send_err err e m h = ground arith

IsSettled-check_pulled :
    (w : World) (e : LoraAdapterPullStatusCheckEvent) (m : Manager)
    → IsSettled m
    → IsSettled (state_of (check_pulled w e m))
unfolding check_pulled load_pulled
IsSettled-check_pulled w e m h =
    ground (arith, IsSettled-send_err "check LoRA adapter pull status" e m)

pub process_lora_adapter_pull_status_check_event-IsSettled :
    (w : World) (e : LoraAdapterPullStatusCheckEvent) (m : Manager)
    → IsSettled m
    → IsSettled (state_of (process_lora_adapter_pull_status_check_event w e m))
unfolding process_lora_adapter_pull_status_check_event
process_lora_adapter_pull_status_check_event-IsSettled w e m h =
    let m' = note_pod e.pod.name m in
    ground (
      arith,
      IsSettled-check_pulled w e m',
      IsSettled-send_err "lora adapter loading target pod no longer exists" e m',
    )

-- The states of an update.
manager_of : Updated → Manager
manager_of (updated m rs) = m
manager_of (no_client_for m) = m
manager_of (nil_address_set m) = m

pub settled-with_addr_set :
    (f : AddressSet → AddressSet) (r r' : Runtime)
    → settled r ≡ true
    → with_addr_set f r ≡ some r'
    → settled r' ≡ true
unfolding settled
settled-with_addr_set f r r' h q = ground arith

settled-found :
    (w : World) (k addr : String) (gpu : ℕ) → settled (found_lora_runtime w k addr gpu) ≡ true
unfolding settled new_pending_runtime become_ready
settled-found w k addr gpu = refl

settled-or_else :
    (k : String) (m : Manager) (r : Runtime)
    → settled r ≡ true
    → IsSettled m
    → settled (or_else (lookup k m.runtimes) r) ≡ true
settled-or_else k m r a h = elim (Option-cases (lookup k m.runtimes)) [
  | inl n ↦ rw n a
  | inr (r', n) ↦ rw n (all_settled-lookup k m.runtimes r' h.0 n)
]

IsSettled-add_adapter :
    (w : World) (u : LoraAdapterStatusUpdate) (k : String) (m : Manager) (rs : List String)
    → IsSettled m
    → IsSettled (manager_of (add_adapter w u k m rs))
unfolding add_adapter manager_of
IsSettled-add_adapter w u k m rs h =
    let addr = w.address_for k u.pod_ip in
    let r = or_else (lookup k m.runtimes) (found_lora_runtime w k addr u.gpu) in
    elim (Option-cases (with_addr_set (add_address addr) r)) [
      | inl n ↦ ground arith
      | inr (r', n) ↦ ground (
        arith,
        IsSettled-put_runtime k r' m,
        settled-with_addr_set (add_address addr) r r',
        settled-or_else k m (found_lora_runtime w k addr u.gpu),
        settled-found w k addr u.gpu,
      )
    ]

IsSettled-and_update :
    (x : Updated) (f : Manager → List String → Updated)
    → IsSettled (manager_of x)
    → ((m : Manager) (rs : List String) → IsSettled m → IsSettled (manager_of (f m rs)))
    → IsSettled (manager_of (and_update x f))
unfolding manager_of
IsSettled-and_update (updated m rs) f h k = k m rs h
IsSettled-and_update (no_client_for m) f h k = h
IsSettled-and_update (nil_address_set m) f h k = h

IsSettled-add_adapters :
    (w : World) (u : LoraAdapterStatusUpdate) (ids : List String) (m : Manager) (rs : List String)
    → IsSettled m
    → IsSettled (manager_of (add_adapters w u ids m rs))
unfolding add_adapters manager_of
IsSettled-add_adapters w u [] m rs h = h
IsSettled-add_adapters w u (id ∷ ids) m rs h =
    IsSettled-and_update (add_adapter w u id m rs) (add_adapters w u ids)
      (IsSettled-add_adapter w u id m rs h) (IsSettled-add_adapters w u ids)

IsSettled-remove_adapter :
    (w : World) (u : LoraAdapterStatusUpdate) (k : String) (m : Manager) (rs : List String)
    → IsSettled m
    → IsSettled (manager_of (remove_adapter w u k m rs))
unfolding remove_adapter manager_of
IsSettled-remove_adapter w u k m rs h =
    let f = remove_address (w.address_for k u.pod_ip) in
    elim (Option-cases (lookup k m.runtimes)) [
      | inl n ↦ ground arith
      | inr (r, n) ↦ elim (Option-cases (with_addr_set f r)) [
        | inl q ↦ ground arith
        | inr (r', q) ↦ ground (
          arith,
          IsSettled-put_runtime k r' m,
          settled-with_addr_set f r r',
          all_settled-lookup k m.runtimes r,
          IsSettled-delete_runtime_unlocked r' k m,
        )
      ]
    ]

IsSettled-remove_adapters :
    (w : World) (u : LoraAdapterStatusUpdate) (ids : List String) (m : Manager) (rs : List String)
    → IsSettled m
    → IsSettled (manager_of (remove_adapters w u ids m rs))
unfolding remove_adapters manager_of
IsSettled-remove_adapters w u [] m rs h = h
IsSettled-remove_adapters w u (id ∷ ids) m rs h =
    IsSettled-and_update (remove_adapter w u id m rs) (remove_adapters w u ids)
      (IsSettled-remove_adapter w u id m rs h) (IsSettled-remove_adapters w u ids)

IsSettled-update_done :
    (u : LoraAdapterStatusUpdate) (ch : Option ℕ) (x : Updated)
    → IsSettled (manager_of x)
    → IsSettled (state_of (update_done u ch x))
unfolding manager_of
IsSettled-update_done u ch (updated m []) h = h
IsSettled-update_done u ch (updated m (id ∷ ids)) h = h
IsSettled-update_done u ch (no_client_for m) h = h
IsSettled-update_done u ch (nil_address_set m) h = h

pub process_lora_adapter_status_update_event-IsSettled :
    (w : World) (u : LoraAdapterStatusUpdate) (ch : Option ℕ) (m : Manager)
    → IsSettled m
    → IsSettled (state_of (process_lora_adapter_status_update_event w u ch m))
unfolding process_lora_adapter_status_update_event
process_lora_adapter_status_update_event-IsSettled w u ch m h =
    let added = add_adapters w u u.added_adapter_ids m [] in
    let all = and_update added (remove_adapters w u u.removed_adapter_ids) in
    ground (
      arith,
      IsSettled-update_done u ch all (
          IsSettled-and_update added (remove_adapters w u u.removed_adapter_ids)
            (IsSettled-add_adapters w u u.added_adapter_ids m [] h)
            (IsSettled-remove_adapters w u u.removed_adapter_ids)),
    )

pub process_load_lora_adapter_event-IsSettled :
    (w : World) (k : String) (pod : RuntimePod) (ch : Option ℕ) (m : Manager)
    → IsSettled m
    → IsSettled (state_of (process_load_lora_adapter_event w k pod ch m))
unfolding process_load_lora_adapter_event
process_load_lora_adapter_event-IsSettled w k pod ch m h = ground arith
