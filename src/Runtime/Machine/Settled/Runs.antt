-- ===== src/Runtime/Machine/Settled/Runs.antt =====
-- What the runs of the state machine leave behind, with the callers of the manager between them.
use inference_manager.Base.{
  Bool, List, Option, Option-cases, String, [], arith, inl, inr, lookup, nat_eq, none, refl, some,
  string_eq, true, ℕ, ◌∷◌, ◌≡◌,
}
use inference_manager.Runtime.Events.{
  ManagerEvent, Runtime, delete_model, load_lora_adapter, lora_adapter_pull_status_check,
  lora_adapter_status_update, pull_model, readiness_check, reconcile_stateful_set, update_model,
}
use inference_manager.Runtime.Manager.{
  Manager, address_of, blacklist_llm_address, get_llm_address, new_manager, with_addr_set,
}
use inference_manager.Runtime.Machine.{
  Input, blacklists, from_caller, from_goroutine, gets_address, process, run_state_machine, step,
  take_spawned,
}
use inference_manager.Router.RouteMap.{model_eq}
use inference_manager.Runtime.AddressSet.{AddressSet, blacklist_address, get_address}
use inference_manager.Runtime.Machine.Settled.{
  IsSettled, IsSettled-and_then, IsSettled-put_runtime, all_settled, all_settled-lookup, settled,
  state_of,
}
use inference_manager.Runtime.Machine.Settled.Checks.{
  process_load_lora_adapter_event-IsSettled, process_lora_adapter_pull_status_check_event-IsSettled,
  process_lora_adapter_status_update_event-IsSettled, process_readiness_check_event-IsSettled,
  settled-with_addr_set,
}
use inference_manager.Runtime.Machine.Settled.Deletions.{
  process_delete_model_event-IsSettled, process_reconcile_stateful_set_event-IsSettled,
  process_update_model_event-IsSettled,
}
use inference_manager.Runtime.Machine.Settled.Pulls.{process_pull_model_event-IsSettled}
use inference_manager.Runtime.World.{World}

pub process-IsSettled :
    (w : World) (e : ManagerEvent) (m : Manager)
    → IsSettled m
    → IsSettled (state_of (process w e m))
unfolding process
process-IsSettled w (pull_model e) = process_pull_model_event-IsSettled w e
process-IsSettled w (delete_model id ch) = process_delete_model_event-IsSettled w id ch
process-IsSettled w (update_model id ch) = process_update_model_event-IsSettled w id ch
process-IsSettled w (reconcile_stateful_set name ch) =
    process_reconcile_stateful_set_event-IsSettled w name ch
process-IsSettled w (readiness_check e) = process_readiness_check_event-IsSettled w e
process-IsSettled w (lora_adapter_pull_status_check e) =
    process_lora_adapter_pull_status_check_event-IsSettled w e
process-IsSettled w (lora_adapter_status_update u ch) =
    process_lora_adapter_status_update_event-IsSettled w u ch
process-IsSettled w (load_lora_adapter id pod ch) =
    process_load_lora_adapter_event-IsSettled w id pod ch

-- A new address set does not matter.
settled-addr_set :
    (r : Runtime) (s : AddressSet)
    → settled r ≡ true
    → settled (record r { addr_set = some s }) ≡ true
unfolding settled
settled-addr_set r s h = ground arith

IsSettled-address_of :
    (m : Manager) (k : String) (r : Runtime) (o : Option AddressSet) (now : ℕ)
    → settled r ≡ true
    → IsSettled m
    → IsSettled (address_of m k r o now).0
IsSettled-address_of m k r none now a h = h
IsSettled-address_of m k r (some s) now a h =
    let s' = (get_address now s).0 in
    IsSettled-put_runtime k (record r { addr_set = some s' }) m (settled-addr_set r s' a) h

pub IsSettled-get_llm_address :
    (k : String) (now : ℕ) (m : Manager) → IsSettled m → IsSettled (get_llm_address k now m).0
unfolding get_llm_address
IsSettled-get_llm_address k now m h = elim (Option-cases (lookup k m.runtimes)) [
  | inl n ↦ ground arith
  | inr (r, n) ↦
      ground (arith, IsSettled-address_of m k r r.addr_set now, all_settled-lookup k m.runtimes r)
]

pub IsSettled-blacklist_llm_address :
    (k address : String) (now : ℕ) (m : Manager)
    → IsSettled m
    → IsSettled (blacklist_llm_address k address now m).0
unfolding blacklist_llm_address
IsSettled-blacklist_llm_address k address now m h = elim (Option-cases (lookup k m.runtimes)) [
  | inl n ↦ ground arith
  | inr (r, n) ↦ elim (Option-cases (with_addr_set (blacklist_address address now) r)) [
    | inl q ↦ ground arith
    | inr (r', q) ↦ ground (
      arith,
      IsSettled-put_runtime k r' m,
      all_settled-lookup k m.runtimes r,
      settled-with_addr_set (blacklist_address address now) r r',
    )
  ]
]

pub step-IsSettled : (i : Input) (m : Manager) → IsSettled m → IsSettled (state_of (step i m))
unfolding step
step-IsSettled (from_caller w e) m h = process-IsSettled w e m h
step-IsSettled (from_goroutine w i) m h = elim (Option-cases (take_spawned i m.spawned)) [
  | inl n ↦ ground arith
  | inr ((e, es), n) ↦ ground (arith, process-IsSettled w e (record m { spawned = es }))
]
step-IsSettled (gets_address k now) m h = IsSettled-get_llm_address k now m h
step-IsSettled (blacklists k address now) m h = IsSettled-blacklist_llm_address k address now m h

pub run_state_machine-IsSettled :
    (is : List Input) (m : Manager) → IsSettled m → IsSettled (state_of (run_state_machine is m))
unfolding run_state_machine
run_state_machine-IsSettled [] m h = h
run_state_machine-IsSettled (i ∷ is) m h =
    IsSettled-and_then (step i m) (run_state_machine is) (step-IsSettled i m h)
      (run_state_machine-IsSettled is)

pub new_manager-IsSettled : (dynamic : Bool) (port : String) → IsSettled (new_manager dynamic port)
unfolding new_manager all_settled
new_manager-IsSettled dynamic port = (refl, tt)

settled-parts :
    (r : Runtime)
    → r.ready ≡ true
    → settled r ≡ true
    → (r.wait_chs ≡ [])
      × (r.pending_pull_model_requests ≡ [])
      × ((s : AddressSet) × (r.addr_set ≡ some s))
unfolding settled
settled-parts r h a = elim (Option-cases r.addr_set) [
  | inl n ↦ ground arith
  | inr (s, n) ↦ (ground arith, ground arith, (s, n))
]

-- After any run of the state machine from its start, however it ends, nobody waits for a runtime
-- that is ready, no request is pending for it, and it has an address set.
pub run_state_machine-settled :
    (dynamic : Bool) (port : String) (is : List Input) (model_id : String) (r : Runtime)
    → lookup model_id (state_of (run_state_machine is (new_manager dynamic port))).runtimes ≡ some r
    → r.ready ≡ true
    → (r.wait_chs ≡ [])
      × (r.pending_pull_model_requests ≡ [])
      × ((s : AddressSet) × (r.addr_set ≡ some s))
run_state_machine-settled dynamic port is model_id r there ready =
    let m0 = new_manager dynamic port in
    let h = run_state_machine-IsSettled is m0 (new_manager-IsSettled dynamic port) in
    settled-parts r ready
      (all_settled-lookup model_id (state_of (run_state_machine is m0)).runtimes r h.0 there)
