-- ===== src/Runtime/Machine/Accounts/Runs.antt =====
-- The channels over a run of the state machine.
use inference_manager.Base.{
  Bool, Distinct, List, Option, Option-cases, String, [], arith, inl, inr, keys, lookup, nat_eq,
  none, refl, some, string_eq, subst, suc, zero, ℕ, ◌+◌, ◌∷◌, ◌≡◌,
}
use inference_manager.Runtime.Events.{
  ManagerEvent, Runtime, delete_model, load_lora_adapter, lora_adapter_pull_status_check,
  lora_adapter_status_update, pull_model, readiness_check, reconcile_stateful_set, update_model,
}
use inference_manager.Runtime.Manager.{
  Manager, Outcome, address_of, and_then, blacklist_llm_address, get_llm_address, goes_on,
  new_manager, sticks, stops,
}
use inference_manager.Runtime.Machine.{
  Input, blacklists, from_caller, from_goroutine, gets_address, process, run_state_machine, step,
  take_spawned,
}
use inference_manager.Runtime.Machine.Settled.{IsSettled, state_of}
use inference_manager.Runtime.Machine.Accounts.Deletions.{
  holds-put_same, process_delete_model_event-Keeps, process_reconcile_stateful_set_event-Keeps,
  process_update_model_event-Keeps,
}
use inference_manager.Router.RouteMap.{model_eq}
use inference_manager.Runtime.AddressSet.{AddressSet, blacklist_address, get_address}
use inference_manager.Runtime.Machine.Accounts.{
  Keeps, answers, holds, in_event, in_events, waits_in,
}
use inference_manager.Runtime.Machine.Accounts.Checks.{
  process_load_lora_adapter_event-Keeps, process_lora_adapter_pull_status_check_event-Keeps,
  process_lora_adapter_status_update_event-Keeps, process_readiness_check_event-Keeps,
}
use inference_manager.Runtime.Machine.Accounts.Pulls.{process_pull_model_event-Keeps}
use inference_manager.Runtime.Machine.Settled.Runs.{new_manager-IsSettled, step-IsSettled}
use inference_manager.Runtime.World.{World}

process-Keeps :
    (c : ℕ) (w : World) (e : ManagerEvent) (m : Manager)
    → Distinct (keys m.runtimes)
    → Keeps c (holds c m + in_event c e) (process w e m)
unfolding process
process-Keeps c w (pull_model e) m d = process_pull_model_event-Keeps c w e m
process-Keeps c w (delete_model id ch) m d = process_delete_model_event-Keeps c w id ch m d
process-Keeps c w (update_model id ch) m d = process_update_model_event-Keeps c w id ch m
process-Keeps c w (reconcile_stateful_set name ch) m d =
    process_reconcile_stateful_set_event-Keeps c w name ch m d
process-Keeps c w (readiness_check e) m d = process_readiness_check_event-Keeps c w e m
process-Keeps c w (lora_adapter_pull_status_check e) m d =
    process_lora_adapter_pull_status_check_event-Keeps c w e m
process-Keeps c w (lora_adapter_status_update u ch) m d =
    process_lora_adapter_status_update_event-Keeps c w u ch m d
process-Keeps c w (load_lora_adapter id pod ch) m d =
    process_load_lora_adapter_event-Keeps c w id pod ch m

-- How often the callers gave the channel to the state machine.
abbrev pub asked_in : ℕ → Input → ℕ
asked_in c (from_caller w e) = in_event c e
asked_in c (from_goroutine w i) = 0
asked_in c (gets_address k now) = 0
asked_in c (blacklists k address now) = 0

abbrev pub asked : ℕ → List Input → ℕ
asked c [] = 0
asked c (i ∷ is) = asked_in c i + asked c is

in_events-take_spawned :
    (c i : ℕ) (es : List ManagerEvent) (e : ManagerEvent) (rest : List ManagerEvent)
    → take_spawned i es ≡ some (e, rest)
    → in_event c e + in_events c rest ≡ in_events c es
unfolding take_spawned
in_events-take_spawned c i [] e rest h = ground arith
in_events-take_spawned c zero (x ∷ es) e rest h = ground arith
in_events-take_spawned c (suc i) (x ∷ es) e rest h = elim (Option-cases (take_spawned i es)) [
  | inl n ↦ ground arith
  | inr ((y, ys), n) ↦ ground (arith, in_events-take_spawned c i es y ys n)
]

holds-address_of :
    (c : ℕ) (m : Manager) (k : String) (r : Runtime) (o : Option AddressSet) (now : ℕ)
    → lookup k m.runtimes ≡ some r
    → holds c (address_of m k r o now).0 ≡ holds c m
holds-address_of c m k r none now h = refl
holds-address_of c m k r (some s) now h =
    holds-put_same c k r (record r { addr_set = some (get_address now s).0 }) m h refl

holds-get_llm_address :
    (c : ℕ) (k : String) (now : ℕ) (m : Manager) → holds c (get_llm_address k now m).0 ≡ holds c m
unfolding get_llm_address
holds-get_llm_address c k now m = elim (Option-cases (lookup k m.runtimes)) [
  | inl n ↦ ground arith
  | inr (r, n) ↦ ground (arith, holds-address_of c m k r r.addr_set now n)
]

holds-blacklist_llm_address :
    (c : ℕ) (k address : String) (now : ℕ) (m : Manager)
    → holds c (blacklist_llm_address k address now m).0 ≡ holds c m
unfolding blacklist_llm_address
holds-blacklist_llm_address c k address now m = elim (Option-cases (lookup k m.runtimes)) [
  | inl n ↦ ground arith
  | inr (r, n) ↦ elim (Option-cases r.addr_set) [
    | inl q ↦ ground arith
    | inr (s, q) ↦
        let r' : Runtime = record r { addr_set = some (blacklist_address address now s) } in
        ground (arith, holds-put_same c k r r' m n refl)
  ]
]

step-Keeps :
    (c : ℕ) (i : Input) (m : Manager) → IsSettled m → Keeps c (holds c m + asked_in c i) (step i m)
unfolding step
step-Keeps c (from_caller w e) m h = process-Keeps c w e m h.1
step-Keeps c (from_goroutine w i) m h = elim (Option-cases (take_spawned i m.spawned)) [
  | inl n ↦ ground arith
  | inr ((e, es), n) ↦
      let m' : Manager = record m { spawned = es } in
      let held : holds c m' + in_event c e ≡ holds c m + 0 =
        omega (arith, in_events-take_spawned c i m.spawned e es n) in
      ground (arith, subst (λ n. Keeps c n (process w e m')) held (process-Keeps c w e m' h.1))
]
step-Keeps c (gets_address k now) m h = omega (arith, holds-get_llm_address c k now m)
step-Keeps c (blacklists k address now) m h =
    omega (arith, holds-blacklist_llm_address c k address now m)

Keeps-and_settled :
    (c n k : ℕ) (o : Outcome) (f : Manager → Outcome)
    → Keeps c n o
    → IsSettled (state_of o)
    → ((m : Manager) → holds c m ≡ n → IsSettled m → Keeps c k (f m))
    → Keeps c k (and_then o f)
Keeps-and_settled c n k (goes_on m) f h a g = g m h a
Keeps-and_settled c n k (stops e m) f h a g = tt
Keeps-and_settled c n k (sticks s m) f h a g = tt

run_state_machine-Keeps :
    (c : ℕ) (is : List Input) (m : Manager)
    → IsSettled m
    → Keeps c (holds c m + asked c is) (run_state_machine is m)
unfolding run_state_machine
run_state_machine-Keeps c [] m h = ground arith
run_state_machine-Keeps c (i ∷ is) m h =
    Keeps-and_settled c (holds c m + asked_in c i) _ (step i m) (run_state_machine is)
      (step-Keeps c i m h) (step-IsSettled i m h)
      (λ m' held a.
        let total : holds c m' + asked c is ≡ holds c m + (asked_in c i + asked c is) =
          omega (arith, held) in
        subst (λ n. Keeps c n (run_state_machine is m')) total (run_state_machine-Keeps c is m' a))

-- After any run of the state machine from its start that goes on, the times that a channel was
-- closed or had an error sent, and the places where it still waits in a runtime or in an event,
-- are together as many as the times that callers gave it: no waiter is lost, and a channel given
-- once is never closed twice.
pub run_state_machine-answers :
    (dynamic : Bool) (port : String) (is : List Input) (m : Manager) (c : ℕ)
    → run_state_machine is (new_manager dynamic port) ≡ goes_on m
    → answers c m.signals + waits_in c m ≡ asked c is
unfolding new_manager
run_state_machine-answers dynamic port is m c h =
    let m0 = new_manager dynamic port in
    let kept : Keeps c (holds c m0 + asked c is) (goes_on m) =
      subst (Keeps c (holds c m0 + asked c is)) h
        (run_state_machine-Keeps c is m0 (new_manager-IsSettled dynamic port)) in
    omega (arith, kept)
