-- ===== src/Runtime/Machine/Settled/Deletions.antt =====
-- What a deletion, an update and a reconciliation leave behind.
use inference_manager.Base.{
  Bool, Option, Option-cases, String, add, arith, false, inl, inr, lookup, nat_eq, refl, some,
  string_eq, true, ℕ, ◌≡◌,
}
use inference_manager.Runtime.Events.{Runtime, new_pending_runtime}
use inference_manager.Runtime.Manager.{
  Manager, Outcome, close_wait_chs, delete_runtime_by_model_id, delete_runtime_by_name,
  find_by_name, goes_on, put_runtime, sticks, stops, under_lock,
}
use inference_manager.Router.RouteMap.{model_eq}
use inference_manager.Runtime.Lifecycle.{
  deferred_close, delete_known, mci_of, process_delete_model_event,
  process_reconcile_stateful_set_event, process_update_model_event, reconcile_fetched,
  reconcile_found, reconcile_known, reconcile_pending, reconcile_set, unschedulable_of,
  update_known,
}
use inference_manager.Runtime.Machine.Settled.{
  IsSettled, IsSettled-close_wait_chs, IsSettled-delete_runtime_unlocked, IsSettled-put_runtime,
  all_settled-lookup, settled, state_of,
}
use inference_manager.Runtime.World.{
  Fetched, StatefulSet, World, fetch_failed, found_set, set_not_found,
}

IsSettled-deferred_close :
    (ch : Option ℕ) (o : Outcome)
    → IsSettled (state_of o)
    → IsSettled (state_of (deferred_close ch o))
IsSettled-deferred_close ch (goes_on m) h = h
IsSettled-deferred_close ch (stops e m) h = h
IsSettled-deferred_close ch (sticks s m) h = h

IsSettled-under_lock : (o : Outcome) → IsSettled (state_of o) → IsSettled (state_of (under_lock o))
IsSettled-under_lock (goes_on m) h = h
IsSettled-under_lock (stops e m) h = h
IsSettled-under_lock (sticks s m) h = h

IsSettled-delete_runtime_by_model_id :
    (k : String) (m : Manager) → IsSettled m → IsSettled (delete_runtime_by_model_id k m)
unfolding delete_runtime_by_model_id
IsSettled-delete_runtime_by_model_id k m h = elim (Option-cases (lookup k m.runtimes)) [
  | inl n ↦ ground arith
  | inr (r, n) ↦ ground (arith, IsSettled-delete_runtime_unlocked r k m)
]

IsSettled-delete_runtime_by_name :
    (name : String) (m : Manager) → IsSettled m → IsSettled (delete_runtime_by_name name m)
unfolding delete_runtime_by_name
IsSettled-delete_runtime_by_name name m h = elim (Option-cases (find_by_name name m.runtimes)) [
  | inl n ↦ ground arith
  | inr ((k, r), n) ↦ ground (arith, IsSettled-delete_runtime_unlocked r k m)
]

IsSettled-delete_known :
    (w : World) (k : String) (r : Runtime) (m : Manager)
    → IsSettled m
    → IsSettled (state_of (delete_known w k r m))
unfolding delete_known
IsSettled-delete_known w k r m h = ground (arith, IsSettled-delete_runtime_by_model_id k m)

pub process_delete_model_event-IsSettled :
    (w : World) (k : String) (ch : Option ℕ) (m : Manager)
    → IsSettled m
    → IsSettled (state_of (process_delete_model_event w k ch m))
unfolding process_delete_model_event
process_delete_model_event-IsSettled w k ch m h = elim (Option-cases (lookup k m.runtimes)) [
  | inl n ↦ rw n (IsSettled-deferred_close ch (goes_on m) h)
  | inr (r, n) ↦
      rw n (IsSettled-deferred_close ch (delete_known w k r m) (IsSettled-delete_known w k r m h))
]

-- A change of the config item does not matter.
settled-mci :
    (r : Runtime) (text : Option String)
    → settled r ≡ true
    → settled (record r { mci = text }) ≡ true
unfolding settled
settled-mci r text h = h

IsSettled-update_known :
    (w : World) (k : String) (r : Runtime) (m : Manager)
    → settled r ≡ true
    → IsSettled m
    → IsSettled (state_of (update_known w k r m))
unfolding update_known
IsSettled-update_known w k r m a h = elim (Option-cases (w.get_model k)) [
  | inl n ↦ ground arith
  | inr (info, n) ↦
      let r' : Runtime = record r { mci = some (w.model_config_item k info) } in
      ground
        (arith, IsSettled-put_runtime k r' m, settled-mci r (some (w.model_config_item k info)))
]

pub process_update_model_event-IsSettled :
    (w : World) (k : String) (ch : Option ℕ) (m : Manager)
    → IsSettled m
    → IsSettled (state_of (process_update_model_event w k ch m))
unfolding process_update_model_event
process_update_model_event-IsSettled w k ch m h = elim (Option-cases (lookup k m.runtimes)) [
  | inl n ↦ rw n (IsSettled-deferred_close ch (goes_on m) h)
  | inr (r, n) ↦ elim (Option-cases r.mci) [
    | inl c ↦ rw (n, c) (IsSettled-deferred_close ch (goes_on m) h)
    | inr (text, c) ↦
        rw (n, c)
          (IsSettled-deferred_close ch (update_known w k r m)
            (IsSettled-update_known w k r m (all_settled-lookup k m.runtimes r h.0 n) h))
  ]
]

IsSettled-reconcile_pending :
    (w : World) (sts : StatefulSet) (u : Bool) (rt : Runtime) (m : Manager)
    → rt.ready ≡ false
    → IsSettled m
    → IsSettled (state_of (reconcile_pending w sts u rt m))
unfolding reconcile_pending
IsSettled-reconcile_pending w sts u rt m r h =
    let closed = close_wait_chs "Unschedulable" sts.model_id rt m in
    ground (
      arith,
      IsSettled-under_lock closed,
      IsSettled-close_wait_chs "Unschedulable" sts.model_id rt m,
    )

settled-unready : (r : Runtime) → settled (record r { ready = false }) ≡ true
unfolding settled
settled-unready r = refl

settled-replicas :
    (r : Runtime) (n : ℕ) → settled r ≡ true → settled (record r { replicas = n }) ≡ true
unfolding settled
settled-replicas r n h = h

IsSettled-reconcile_known :
    (w : World) (sts : StatefulSet) (u : Bool) (rt : Runtime) (m : Manager)
    → settled rt ≡ true
    → IsSettled m
    → IsSettled (state_of (reconcile_known w sts u rt m))
unfolding reconcile_known
IsSettled-reconcile_known w sts u rt m a h =
    let off : Runtime = record rt { ready = false } in
    let on : Runtime = record rt { replicas = sts.status_replicas } in
    ground (
      arith,
      settled-unready rt,
      settled-replicas rt sts.status_replicas,
      IsSettled-put_runtime sts.model_id off m,
      IsSettled-put_runtime sts.model_id on m,
      IsSettled-reconcile_pending w sts u rt m,
    )

settled-new : (name : String) (mci : Option String) → settled (new_pending_runtime name mci) ≡ true
unfolding settled new_pending_runtime
settled-new name mci = refl

IsSettled-reconcile_found :
    (w : World) (sts : StatefulSet) (u : Bool) (m : Manager)
    → IsSettled m
    → IsSettled (state_of (reconcile_found w sts u m))
unfolding reconcile_found
IsSettled-reconcile_found w sts u m h = elim (Option-cases (lookup sts.model_id m.runtimes)) [
  | inr (rt, n) ↦
      ground (
        arith,
        IsSettled-reconcile_known w sts u rt m,
        all_settled-lookup sts.model_id m.runtimes rt,
      )
  | inl n ↦ elim (Option-cases (mci_of sts.config)) [
    | inl c ↦ ground arith
    | inr (mci, c) ↦
        let rt = new_pending_runtime sts.name mci in
        let m' = put_runtime sts.model_id rt m in
        let m'' : Manager = record m' { scalers = add sts.name m'.scalers } in
        ground (
          arith,
          IsSettled-reconcile_known w sts u rt m'',
          settled-new sts.name mci,
          IsSettled-put_runtime sts.model_id rt m,
        )
  ]
]

IsSettled-reconcile_set :
    (w : World) (name : String) (m : Manager)
    → IsSettled m
    → IsSettled (state_of (reconcile_set w name m))
unfolding reconcile_set reconcile_fetched
IsSettled-reconcile_set w name m h = go (w.get_stateful_set name)
  where
    go : (f : Fetched) → IsSettled (state_of (reconcile_fetched w name f m))
    go fetch_failed = h
    go set_not_found = IsSettled-delete_runtime_by_name name m h
    go (found_set sts) = elim (Option-cases (unschedulable_of w sts)) [
      | inl n ↦ ground arith
      | inr (u, n) ↦ ground (arith, IsSettled-reconcile_found w sts u m)
    ]

pub process_reconcile_stateful_set_event-IsSettled :
    (w : World) (name : String) (ch : Option ℕ) (m : Manager)
    → IsSettled m
    → IsSettled (state_of (process_reconcile_stateful_set_event w name ch m))
unfolding process_reconcile_stateful_set_event
process_reconcile_stateful_set_event-IsSettled w name ch m h =
    IsSettled-deferred_close ch (reconcile_set w name m) (IsSettled-reconcile_set w name m h)
