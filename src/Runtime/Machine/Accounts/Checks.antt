-- ===== src/Runtime/Machine/Accounts/Checks.antt =====
-- The channels after a readiness check, and after the handlers of the LoRA adapters.
use inference_manager.Base.{
  Distinct, Distinct-delete, Distinct-insert, List, Option, Option-cases, String, [], arith, inl,
  inr, keys, lookup, nat_eq, none, or_else, refl, some, string_eq, subst, sym, ℕ, ◌+◌, ◌∷◌, ◌≡◌,
}
use inference_manager.Runtime.Events.{
  LoraAdapterPullStatusCheckEvent, LoraAdapterStatusUpdate, ReadinessCheckEvent, Runtime,
  RuntimePod, delete_model, errs, lora_adapter_pull_status_check, lora_adapter_status_update,
  new_pending_runtime, readiness_check,
}
use inference_manager.Runtime.Manager.{
  Manager, become_ready, close_wait_chs, close_with, delete_runtime_unlocked, put_runtime,
  requeue_pending, signal, spawn, with_addr_set,
}
use inference_manager.Runtime.Machine.Accounts.Deletions.{holds-put_same}
use inference_manager.Router.RouteMap.{model_eq}
use inference_manager.Runtime.AddressSet.{AddressSet, add_address, remove_address}
use inference_manager.Runtime.Lora.{
  Updated, add_adapter, add_adapters, and_update, check_pulled, found_lora_runtime, load_pulled,
  nil_address_set, no_client_for, note_pod, process_load_lora_adapter_event,
  process_lora_adapter_pull_status_check_event, process_lora_adapter_status_update_event,
  remove_adapter, remove_adapters, send_err, update_done, updated,
}
use inference_manager.Runtime.Machine.Accounts.{
  Keeps, Keeps-and_then, Keeps-close_wait_chs, answers-append, at_model, holds, holds-close_with,
  holds-delete_runtime_unlocked, holds-put_runtime, holds-requeue_pending, holds-spawn, in_ch,
  in_events-append, in_runtime,
}
use inference_manager.Runtime.Readiness.{
  forget_pod, give_up, not_reachable, process_readiness_check_event, reachable, retry_of,
}
use inference_manager.Runtime.World.{World}

holds-forget_pod :
    (c : ℕ) (p : Option RuntimePod) (m : Manager) → holds c (forget_pod p m) ≡ holds c m
holds-forget_pod c none m = refl
holds-forget_pod c (some p) m = refl

holds-give_up_end :
    (c : ℕ) (e : ReadinessCheckEvent) (m : Manager)
    → holds c (
        spawn
          (delete_model e.model_id none)
          (forget_pod e.pod (signal (close_with "" e.event_wait_ch) m)))
      ≡ holds c m + in_ch c e.event_wait_ch
holds-give_up_end c e m =
    let closed = signal (close_with "" e.event_wait_ch) m in
    let ev = delete_model e.model_id none in
    omega (
      arith,
      holds-spawn c ev (forget_pod e.pod closed),
      holds-forget_pod c e.pod closed,
      holds-close_with c "" e.event_wait_ch m,
    )

Keeps-give_up :
    (c : ℕ) (e : ReadinessCheckEvent) (rt : Runtime) (m : Manager)
    → lookup e.model_id m.runtimes ≡ some rt
    → Keeps c (holds c m + in_ch c e.event_wait_ch) (give_up e rt m)
unfolding give_up
Keeps-give_up c e rt m h =
    Keeps-and_then c (holds c m) _ (close_wait_chs "runtime is unreachable" e.model_id rt m) _
      (Keeps-close_wait_chs c (holds c m) "runtime is unreachable" e.model_id rt m (rw h refl))
      (λ m' kept. omega (arith, kept, holds-give_up_end c e m'))

Keeps-not_reachable :
    (c : ℕ) (e : ReadinessCheckEvent) (rt : Runtime) (m : Manager)
    → lookup e.model_id m.runtimes ≡ some rt
    → Keeps c (holds c m + in_ch c e.event_wait_ch) (not_reachable e rt m)
unfolding not_reachable retry_of
Keeps-not_reachable c e rt m h =
    let ev = readiness_check (record e { pod = none; retry_count = e.retry_count + 1 }) in
    ground (arith, Keeps-give_up c e rt m h, in_events-append c m.spawned (ev ∷ []))

runtimes-at :
    (c : ℕ) (e : ReadinessCheckEvent) (rt : Runtime) (m : Manager)
    → lookup e.model_id m.runtimes ≡ some rt
    → at_model c (lookup e.model_id (requeue_pending rt (forget_pod e.pod m)).runtimes)
      ≡ in_runtime c rt
unfolding requeue_pending
runtimes-at c e rt m h = go e.pod
  where
    go :
        (p : Option RuntimePod)
        → at_model c (lookup e.model_id (requeue_pending rt (forget_pod p m)).runtimes)
          ≡ in_runtime c rt
    go none = rw h refl
    go (some p) = rw h refl

-- The pending requests come again, and the waiters are answered.
Keeps-reachable :
    (c : ℕ) (e : ReadinessCheckEvent) (rt : Runtime) (m : Manager)
    → lookup e.model_id m.runtimes ≡ some rt
    → Keeps c (holds c m + in_ch c e.event_wait_ch) (reachable e rt m)
unfolding reachable become_ready
Keeps-reachable c e rt m h =
    let r : Runtime = record (become_ready e.address e.gpu e.replicas rt) {
      pending_pull_model_requests = [];
    } in
    let forgot = forget_pod e.pod m in
    let m' = requeue_pending rt forgot in
    let at : at_model c (lookup e.model_id m'.runtimes) ≡ in_runtime c rt =
      runtimes-at c e rt m h in
    Keeps-and_then c (holds c m) _ (close_wait_chs "" e.model_id r m') _
      (Keeps-close_wait_chs c (holds c m) "" e.model_id r m'
        (omega (arith, at, holds-requeue_pending c rt forgot, holds-forget_pod c e.pod m)))
      (λ m'' kept. omega (arith, kept, holds-close_with c "" e.event_wait_ch m''))

pub process_readiness_check_event-Keeps :
    (c : ℕ) (w : World) (e : ReadinessCheckEvent) (m : Manager)
    → Keeps c (holds c m + in_ch c e.event_wait_ch) (process_readiness_check_event w e m)
unfolding process_readiness_check_event
process_readiness_check_event-Keeps c w e m = elim (Option-cases (lookup e.model_id m.runtimes)) [
  | inl n ↦ ground (
    arith,
    holds-forget_pod c e.pod (signal (close_with "" e.event_wait_ch) m),
    holds-close_with c "" e.event_wait_ch m,
  )
  | inr (rt, n) ↦ ground (arith, Keeps-reachable c e rt m n, Keeps-not_reachable c e rt m n)
]

Keeps-send_err :
    (c : ℕ) (err : String) (e : LoraAdapterPullStatusCheckEvent) (m : Manager)
    → Keeps c (holds c m + in_ch c e.event_wait_ch) (send_err err e m)
unfolding send_err
Keeps-send_err c err e m = go e.event_wait_ch refl
  where
    go :
        (o : Option ℕ)
        → e.event_wait_ch ≡ o
        → Keeps c (holds c m + in_ch c e.event_wait_ch) (send_err err e m)
    go none q = ground arith
    go (some ch) q = ground (arith, answers-append c m.signals (errs ch err ∷ []))

Keeps-check_pulled :
    (c : ℕ) (w : World) (e : LoraAdapterPullStatusCheckEvent) (m : Manager)
    → Keeps c (holds c m + in_ch c e.event_wait_ch) (check_pulled w e m)
unfolding check_pulled load_pulled
Keeps-check_pulled c w e m =
    let again = lora_adapter_pull_status_check e in
    let ev = readiness_check (record {
      model_id = e.model_id;
      address = w.address_for e.model_id e.pod.pod_ip;
      gpu = e.gpu;
      replicas = 0;
      pod = some e.pod;
      retry_count = 0;
      event_wait_ch = e.event_wait_ch;
    }) in
    ground (
      arith,
      Keeps-send_err c "check LoRA adapter pull status" e m,
      in_events-append c m.spawned (again ∷ []),
      in_events-append c m.spawned (ev ∷ []),
    )

pub process_lora_adapter_pull_status_check_event-Keeps :
    (c : ℕ) (w : World) (e : LoraAdapterPullStatusCheckEvent) (m : Manager)
    → Keeps c
        (holds c m + in_ch c e.event_wait_ch)
        (process_lora_adapter_pull_status_check_event w e m)
unfolding process_lora_adapter_pull_status_check_event
process_lora_adapter_pull_status_check_event-Keeps c w e m =
    let m' = note_pod e.pod.name m in
    ground (
      arith,
      Keeps-check_pulled c w e m',
      Keeps-send_err c "lora adapter loading target pod no longer exists" e m',
    )

-- The states of an update.
KeepsUpdated : ℕ → ℕ → Updated → Type 0
KeepsUpdated c n (updated m rs) = (holds c m ≡ n) × Distinct (keys m.runtimes)
KeepsUpdated c n (no_client_for m) = Unit {0}
KeepsUpdated c n (nil_address_set m) = Unit {0}

in_runtime-with_addr_set :
    (c : ℕ) (f : AddressSet → AddressSet) (r r' : Runtime)
    → with_addr_set f r ≡ some r'
    → in_runtime c r' ≡ in_runtime c r
in_runtime-with_addr_set c f r r' h = elim (Option-cases r.addr_set) [
  | inl n ↦ ground arith
  | inr (s, n) ↦ ground arith
]

in_runtime-found :
    (c : ℕ) (w : World) (k addr : String) (gpu : ℕ)
    → in_runtime c (found_lora_runtime w k addr gpu) ≡ 0
unfolding new_pending_runtime become_ready
in_runtime-found c w k addr gpu = ground arith

at_model-or_else :
    (c : ℕ) (o : Option Runtime) (r : Runtime)
    → in_runtime c r ≡ 0
    → in_runtime c (or_else o r) ≡ at_model c o
at_model-or_else c none r h = h
at_model-or_else c (some s) r h = refl

KeepsUpdated-add_adapter :
    (c : ℕ) (w : World) (u : LoraAdapterStatusUpdate) (k : String) (m : Manager) (rs : List String)
    → Distinct (keys m.runtimes)
    → KeepsUpdated c (holds c m) (add_adapter w u k m rs)
unfolding add_adapter KeepsUpdated
KeepsUpdated-add_adapter c w u k m rs d =
    let addr = w.address_for k u.pod_ip in
    let found = found_lora_runtime w k addr u.gpu in
    let r = or_else (lookup k m.runtimes) found in
    elim (Option-cases (with_addr_set (add_address addr) r)) [
      | inl n ↦ ground arith
      | inr (r', n) ↦
          let kept : holds c (put_runtime k r' m) ≡ holds c m = omega (
            arith,
            holds-put_runtime c k r' m,
            in_runtime-with_addr_set c (add_address addr) r r' n,
            at_model-or_else c (lookup k m.runtimes) found (in_runtime-found c w k addr u.gpu),
          ) in
          ground (arith, kept, Distinct-insert k r' m.runtimes)
    ]

KeepsUpdated-and_update :
    (c n : ℕ) (x : Updated) (f : Manager → List String → Updated)
    → KeepsUpdated c n x
    → ((m : Manager) (rs : List String)
        → Distinct (keys m.runtimes)
        → KeepsUpdated c (holds c m) (f m rs))
    → KeepsUpdated c n (and_update x f)
unfolding KeepsUpdated
KeepsUpdated-and_update c n (updated m rs) f h k =
    subst (λ j. KeepsUpdated c j (f m rs)) h.0 (k m rs h.1)
KeepsUpdated-and_update c n (no_client_for m) f h k = tt
KeepsUpdated-and_update c n (nil_address_set m) f h k = tt

KeepsUpdated-add_adapters :
    (c : ℕ) (w : World) (u : LoraAdapterStatusUpdate) (ids : List String) (m : Manager)
    (rs : List String)
    → Distinct (keys m.runtimes)
    → KeepsUpdated c (holds c m) (add_adapters w u ids m rs)
unfolding add_adapters KeepsUpdated
KeepsUpdated-add_adapters c w u [] m rs d = (refl, d)
KeepsUpdated-add_adapters c w u (id ∷ ids) m rs d =
    KeepsUpdated-and_update c (holds c m) (add_adapter w u id m rs) (add_adapters w u ids)
      (KeepsUpdated-add_adapter c w u id m rs d) (KeepsUpdated-add_adapters c w u ids)

Distinct-delete_runtime :
    (r : Runtime) (k : String) (m : Manager)
    → Distinct (keys m.runtimes)
    → Distinct (keys (delete_runtime_unlocked r k m).runtimes)
unfolding delete_runtime_unlocked
Distinct-delete_runtime r k m d = Distinct-delete k m.runtimes d

KeepsUpdated-remove_adapter :
    (c : ℕ) (w : World) (u : LoraAdapterStatusUpdate) (k : String) (m : Manager) (rs : List String)
    → Distinct (keys m.runtimes)
    → KeepsUpdated c (holds c m) (remove_adapter w u k m rs)
unfolding remove_adapter KeepsUpdated
KeepsUpdated-remove_adapter c w u k m rs d =
    let f = remove_address (w.address_for k u.pod_ip) in
    elim (Option-cases (lookup k m.runtimes)) [
      | inl n ↦ ground arith
      | inr (r, n) ↦ elim (Option-cases (with_addr_set f r)) [
        | inl q ↦ ground arith
        | inr (r', q) ↦
            let same = in_runtime-with_addr_set c f r r' q in
            let at : at_model c (lookup k m.runtimes) ≡ in_runtime c r' = rw n (sym same) in
            ground (
              arith,
              holds-put_same c k r r' m n same,
              Distinct-insert k r' m.runtimes,
              holds-delete_runtime_unlocked c r' k m d at,
              Distinct-delete_runtime r' k m d,
            )
      ]
    ]

KeepsUpdated-remove_adapters :
    (c : ℕ) (w : World) (u : LoraAdapterStatusUpdate) (ids : List String) (m : Manager)
    (rs : List String)
    → Distinct (keys m.runtimes)
    → KeepsUpdated c (holds c m) (remove_adapters w u ids m rs)
unfolding remove_adapters KeepsUpdated
KeepsUpdated-remove_adapters c w u [] m rs d = (refl, d)
KeepsUpdated-remove_adapters c w u (id ∷ ids) m rs d =
    KeepsUpdated-and_update c (holds c m) (remove_adapter w u id m rs) (remove_adapters w u ids)
      (KeepsUpdated-remove_adapter c w u id m rs d) (KeepsUpdated-remove_adapters c w u ids)

Keeps-update_done :
    (c n : ℕ) (u : LoraAdapterStatusUpdate) (ch : Option ℕ) (x : Updated)
    → KeepsUpdated c n x
    → Keeps c (n + in_ch c ch) (update_done u ch x)
unfolding KeepsUpdated
Keeps-update_done c n u ch (updated m []) h = omega (arith, h.0, holds-close_with c "" ch m)
Keeps-update_done c n u ch (updated m (id ∷ ids)) h =
    let ev =
      lora_adapter_status_update
        (record u { added_adapter_ids = id ∷ ids; removed_adapter_ids = [] }) ch in
    omega (arith, h.0, holds-spawn c ev m)
Keeps-update_done c n u ch (no_client_for m) h = tt
Keeps-update_done c n u ch (nil_address_set m) h = tt

pub process_lora_adapter_status_update_event-Keeps :
    (c : ℕ) (w : World) (u : LoraAdapterStatusUpdate) (ch : Option ℕ) (m : Manager)
    → Distinct (keys m.runtimes)
    → Keeps c (holds c m + in_ch c ch) (process_lora_adapter_status_update_event w u ch m)
unfolding process_lora_adapter_status_update_event
process_lora_adapter_status_update_event-Keeps c w u ch m d =
    let added = add_adapters w u u.added_adapter_ids m [] in
    let all = and_update added (remove_adapters w u u.removed_adapter_ids) in
    ground (
      arith,
      Keeps-update_done c (holds c m) u ch all (
          KeepsUpdated-and_update c (holds c m) added (remove_adapters w u u.removed_adapter_ids)
            (KeepsUpdated-add_adapters c w u u.added_adapter_ids m [] d)
            (KeepsUpdated-remove_adapters c w u u.removed_adapter_ids)),
    )

pub process_load_lora_adapter_event-Keeps :
    (c : ℕ) (w : World) (k : String) (pod : RuntimePod) (ch : Option ℕ) (m : Manager)
    → Keeps c (holds c m + in_ch c ch) (process_load_lora_adapter_event w k pod ch m)
unfolding process_load_lora_adapter_event
process_load_lora_adapter_event-Keeps c w k pod ch m =
    let ev =
      lora_adapter_pull_status_check
        (record { model_id = k; pod = pod; gpu = 0; event_wait_ch = ch }) in
    ground (arith, in_events-append c m.spawned (ev ∷ []))
