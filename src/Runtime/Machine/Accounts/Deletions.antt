-- ===== src/Runtime/Machine/Accounts/Deletions.antt =====
-- The channels after a deletion, an update and a reconciliation.
use inference_manager.Base.{
  ==_iff, ==_refl, Bool, Distinct, List, Option, Option-cases, String, [], add, arith, contains,
  contains-keys, false, inl, inr, keys, lookup, lookup-insert_self, nat_eq, none, refl, some,
  string_eq, subst, ℕ, ◌+◌, ◌∷◌, ◌≡◌,
}
use inference_manager.Runtime.Events.{Runtime, new_pending_runtime, readiness_check}
use inference_manager.Runtime.Manager.{
  Manager, Outcome, close_wait_chs, delete_runtime_by_model_id, delete_runtime_by_name,
  find_by_name, goes_on, put_runtime, sticks, stops, under_lock,
}
use inference_manager.Router.RouteMap.{model_eq}
use inference_manager.Runtime.Lifecycle.{
  deferred_close, delete_known, mci_of, process_delete_model_event,
  process_reconcile_stateful_set_event, process_update_model_event, reconcile_fetched,
  reconcile_found, reconcile_known, reconcile_pending, reconcile_set, unschedulable_of,
  update_known,
}
use inference_manager.Runtime.Machine.Accounts.{
  Keeps, Keeps-close_wait_chs, at_model, holds, holds-close_with, holds-delete_runtime_unlocked,
  holds-put_runtime, in_ch, in_events-append, in_runtime,
}
use inference_manager.Runtime.World.{
  Fetched, StatefulSet, World, fetch_failed, found_set, get_gpu, set_not_found,
}

-- The channel of the event is closed at the end.
Keeps-deferred_close :
    (c n : ℕ) (ch : Option ℕ) (o : Outcome)
    → Keeps c n o
    → Keeps c (n + in_ch c ch) (deferred_close ch o)
Keeps-deferred_close c n ch (goes_on m) h = omega (arith, h, holds-close_with c "" ch m)
Keeps-deferred_close c n ch (stops e m) h = tt
Keeps-deferred_close c n ch (sticks s m) h = tt

Keeps-under_lock : (c n : ℕ) (o : Outcome) → Keeps c n o → Keeps c n (under_lock o)
Keeps-under_lock c n (goes_on m) h = h
Keeps-under_lock c n (stops e m) h = tt
Keeps-under_lock c n (sticks s m) h = tt

holds-delete_runtime_by_model_id :
    (c : ℕ) (k : String) (m : Manager)
    → Distinct (keys m.runtimes)
    → holds c (delete_runtime_by_model_id k m) ≡ holds c m
unfolding delete_runtime_by_model_id
holds-delete_runtime_by_model_id c k m d = elim (Option-cases (lookup k m.runtimes)) [
  | inl n ↦ ground arith
  | inr (r, n) ↦
      let at : at_model c (lookup k m.runtimes) ≡ in_runtime c r = rw n refl in
      ground (arith, holds-delete_runtime_unlocked c r k m d at)
]

lookup-find_by_name :
    (name k : String) (r : Runtime) (m : List (String × Runtime))
    → Distinct (keys m)
    → find_by_name name m ≡ some (k, r)
    → lookup k m ≡ some r
unfolding find_by_name lookup contains
lookup-find_by_name name k r [] d h = ground arith
lookup-find_by_name name k r ((j, s) ∷ m) (out, d) h =
    ground (arith, lookup-find_by_name name k r m d, contains-keys k m, ==_iff j k, ==_refl j)

holds-delete_runtime_by_name :
    (c : ℕ) (name : String) (m : Manager)
    → Distinct (keys m.runtimes)
    → holds c (delete_runtime_by_name name m) ≡ holds c m
unfolding delete_runtime_by_name
holds-delete_runtime_by_name c name m d = elim (Option-cases (find_by_name name m.runtimes)) [
  | inl n ↦ ground arith
  | inr ((k, r), n) ↦
      let at : at_model c (lookup k m.runtimes) ≡ in_runtime c r =
        rw (lookup-find_by_name name k r m.runtimes d n) refl in
      ground (arith, holds-delete_runtime_unlocked c r k m d at)
]

Keeps-delete_known :
    (c : ℕ) (w : World) (k : String) (r : Runtime) (m : Manager)
    → Distinct (keys m.runtimes)
    → Keeps c (holds c m) (delete_known w k r m)
unfolding delete_known
Keeps-delete_known c w k r m d = ground (arith, holds-delete_runtime_by_model_id c k m d)

pub process_delete_model_event-Keeps :
    (c : ℕ) (w : World) (k : String) (ch : Option ℕ) (m : Manager)
    → Distinct (keys m.runtimes)
    → Keeps c (holds c m + in_ch c ch) (process_delete_model_event w k ch m)
unfolding process_delete_model_event
process_delete_model_event-Keeps c w k ch m d = elim (Option-cases (lookup k m.runtimes)) [
  | inl n ↦ rw n (Keeps-deferred_close c (holds c m) ch (goes_on m) refl)
  | inr (r, n) ↦ rw n (
      Keeps-deferred_close c (holds c m) ch (delete_known w k r m) (Keeps-delete_known c w k r m d))
]

-- A runtime that is put back with its channels.
pub holds-put_same :
    (c : ℕ) (k : String) (r r' : Runtime) (m : Manager)
    → lookup k m.runtimes ≡ some r
    → in_runtime c r' ≡ in_runtime c r
    → holds c (put_runtime k r' m) ≡ holds c m
holds-put_same c k r r' m h same =
    let at : at_model c (lookup k m.runtimes) ≡ in_runtime c r = rw h refl in
    omega (arith, at, same, holds-put_runtime c k r' m)

Keeps-update_known :
    (c : ℕ) (w : World) (k : String) (r : Runtime) (m : Manager)
    → lookup k m.runtimes ≡ some r
    → Keeps c (holds c m) (update_known w k r m)
unfolding update_known
Keeps-update_known c w k r m h = elim (Option-cases (w.get_model k)) [
  | inl n ↦ ground arith
  | inr (info, n) ↦
      let r' : Runtime = record r { mci = some (w.model_config_item k info) } in
      ground (arith, holds-put_same c k r r' m h refl)
]

pub process_update_model_event-Keeps :
    (c : ℕ) (w : World) (k : String) (ch : Option ℕ) (m : Manager)
    → Keeps c (holds c m + in_ch c ch) (process_update_model_event w k ch m)
unfolding process_update_model_event
process_update_model_event-Keeps c w k ch m = elim (Option-cases (lookup k m.runtimes)) [
  | inl n ↦ rw n (Keeps-deferred_close c (holds c m) ch (goes_on m) refl)
  | inr (r, n) ↦ elim (Option-cases r.mci) [
    | inl q ↦ rw (n, q) (Keeps-deferred_close c (holds c m) ch (goes_on m) refl)
    | inr (text, q) ↦
        rw (n, q)
          (Keeps-deferred_close c (holds c m) ch (update_known w k r m)
            (Keeps-update_known c w k r m n))
  ]
]

Keeps-reconcile_pending :
    (c : ℕ) (w : World) (sts : StatefulSet) (u : Bool) (rt : Runtime) (m : Manager)
    → lookup sts.model_id m.runtimes ≡ some rt
    → Keeps c (holds c m) (reconcile_pending w sts u rt m)
unfolding reconcile_pending
Keeps-reconcile_pending c w sts u rt m h =
    let closed = close_wait_chs "Unschedulable" sts.model_id rt m in
    let at : holds c m + at_model c (lookup sts.model_id m.runtimes) ≡ holds c m + in_runtime c rt =
      rw h refl in
    let ev = readiness_check (record {
      model_id = sts.model_id;
      address = w.address_for sts.model_id rt.name;
      gpu = get_gpu sts.gpu_limits;
      replicas = sts.ready_replicas;
      pod = none;
      retry_count = 0;
      event_wait_ch = none;
    }) in
    ground (
      arith,
      Keeps-under_lock c (holds c m) closed
          (Keeps-close_wait_chs c (holds c m) "Unschedulable" sts.model_id rt m at),
      in_events-append c m.spawned (ev ∷ []),
    )

Keeps-reconcile_known :
    (c : ℕ) (w : World) (sts : StatefulSet) (u : Bool) (rt : Runtime) (m : Manager)
    → lookup sts.model_id m.runtimes ≡ some rt
    → Keeps c (holds c m) (reconcile_known w sts u rt m)
unfolding reconcile_known
Keeps-reconcile_known c w sts u rt m h =
    let off : Runtime = record rt { ready = false } in
    let on : Runtime = record rt { replicas = sts.status_replicas } in
    ground (
      arith,
      holds-put_same c sts.model_id rt off m h refl,
      holds-put_same c sts.model_id rt on m h refl,
      Keeps-reconcile_pending c w sts u rt m h,
    )

holds-put_fresh :
    (c : ℕ) (k name : String) (mci : Option String) (m : Manager)
    → lookup k m.runtimes ≡ none
    → holds c (put_runtime k (new_pending_runtime name mci) m) ≡ holds c m
unfolding new_pending_runtime
holds-put_fresh c k name mci m h =
    let at : at_model c (lookup k m.runtimes) ≡ 0 = rw h refl in
    omega (arith, at, holds-put_runtime c k (new_pending_runtime name mci) m)

Keeps-reconcile_found :
    (c : ℕ) (w : World) (sts : StatefulSet) (u : Bool) (m : Manager)
    → Keeps c (holds c m) (reconcile_found w sts u m)
unfolding reconcile_found
Keeps-reconcile_found c w sts u m = elim (Option-cases (lookup sts.model_id m.runtimes)) [
  | inr (rt, n) ↦ ground (arith, Keeps-reconcile_known c w sts u rt m n)
  | inl n ↦ elim (Option-cases (mci_of sts.config)) [
    | inl q ↦ ground arith
    | inr (mci, q) ↦
        let rt = new_pending_runtime sts.name mci in
        let m' = put_runtime sts.model_id rt m in
        let m'' : Manager = record m' { scalers = add sts.name m'.scalers } in
        let held : holds c m'' ≡ holds c m = holds-put_fresh c sts.model_id sts.name mci m n in
        ground (
          arith,
          subst (λ n. Keeps c n (reconcile_known w sts u rt m'')) held
              (Keeps-reconcile_known c w sts u rt m''
                (lookup-insert_self sts.model_id rt m.runtimes)),
        )
  ]
]

Keeps-reconcile_set :
    (c : ℕ) (w : World) (name : String) (m : Manager)
    → Distinct (keys m.runtimes)
    → Keeps c (holds c m) (reconcile_set w name m)
unfolding reconcile_set reconcile_fetched
Keeps-reconcile_set c w name m d = go (w.get_stateful_set name)
  where
    go : (f : Fetched) → Keeps c (holds c m) (reconcile_fetched w name f m)
    go fetch_failed = tt
    go set_not_found = holds-delete_runtime_by_name c name m d
    go (found_set sts) = elim (Option-cases (unschedulable_of w sts)) [
      | inl n ↦ ground arith
      | inr (u, n) ↦ ground (arith, Keeps-reconcile_found c w sts u m)
    ]

pub process_reconcile_stateful_set_event-Keeps :
    (c : ℕ) (w : World) (name : String) (ch : Option ℕ) (m : Manager)
    → Distinct (keys m.runtimes)
    → Keeps c (holds c m + in_ch c ch) (process_reconcile_stateful_set_event w name ch m)
unfolding process_reconcile_stateful_set_event
process_reconcile_stateful_set_event-Keeps c w name ch m d =
    Keeps-deferred_close c (holds c m) ch (reconcile_set w name m)
      (Keeps-reconcile_set c w name m d)
