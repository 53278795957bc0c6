-- ===== src/Runtime/Machine/Readied.antt =====
-- A model that is pulled, deployed and found to be ready.
use inference_manager.Base.{
  List, String, [], add, ap, arith, eqb, false, length, lookup, lookup-insert_self, nat_eq, none,
  refl, some, string_eq, true, ℕ, ◌++◌, ◌∙◌, ◌∷◌, ◌≡◌,
}
use inference_manager.Runtime.Events.{
  ManagerEvent, PullModelEvent, ReadinessCheckEvent, Runtime, closes, new_pending_runtime,
  pull_model, readiness_check, reconcile_stateful_set,
}
use inference_manager.Runtime.Manager.{
  Manager, ModelInfo, become_ready, close_all, close_pending, close_wait_chs, close_with,
  closed_runtime, get_llm_address, gets, goes_on, put_runtime, requeue_pending, signal, spawn,
}
use inference_manager.Runtime.Machine.{
  Input, from_caller, from_goroutine, process, run_state_machine, step, take_spawned,
}
use inference_manager.Router.RouteMap.{model_eq}
use inference_manager.Runtime.Lifecycle.{
  process_reconcile_stateful_set_event, reconcile_fetched, reconcile_found, reconcile_known,
  reconcile_pending, reconcile_set,
}
use inference_manager.Runtime.Pull.{
  deploy_runtime, is_dynamic_lora_loading_applicable, process_pull_model_event, pull_new,
  pull_plain, wait_for,
}
use inference_manager.Runtime.World.{StatefulSet, World, found_set, get_gpu}
use inference_manager.Runtime.Readiness.{forget_pod, process_readiness_check_event, reachable}
use inference_manager.Runtime.AddressSet.{add_address, get_address, new_runtime_address_set}

-- The answers under which a model is deployed, with a replica that is ready.
pub record Deploys (w : World) (e : PullModelEvent) (info : ModelInfo) (sts : StatefulSet)
    : Type 0 where
  pub has_client : w.new_client e.model_id ≡ true
  pub client_of : w.new_client info.id ≡ true
  pub got_model : w.get_model e.model_id ≡ some info
  pub deployed : w.deploy info false ≡ some sts.name
  pub registered : w.register sts.name ≡ true
  pub fetched : w.get_stateful_set sts.name ≡ found_set sts
  pub some_ready : eqb sts.ready_replicas 0 ≡ false

-- The runtime of the pull.
abbrev pulled_runtime : World → PullModelEvent → ModelInfo → Runtime
pulled_runtime w e info = wait_for e.ready_wait_ch (
    new_pending_runtime (w.get_name e.model_id e.model_id)
      (some (w.model_config_item e.model_id info)))

abbrev after_pull : World → PullModelEvent → ModelInfo → String → Manager → Manager
after_pull w e info name m =
    spawn (reconcile_stateful_set name none)
      (record (put_runtime e.model_id (pulled_runtime w e info) m) { scalers = add name m.scalers })

pull_new-plain :
    (w : World) (e : PullModelEvent) (info : ModelInfo) (m : Manager)
    → w.get_model e.model_id ≡ some info
    → m.enable_dynamic_lora_loading ≡ false
    → pull_new w e m ≡ pull_plain w e info m
unfolding pull_new is_dynamic_lora_loading_applicable
pull_new-plain w e info m got off = ground (arith, got, off)

pull_plain-deployed :
    (w : World) (e : PullModelEvent) (info : ModelInfo) (sts : StatefulSet) (m : Manager)
    → Deploys w e info sts
    → pull_plain w e info m ≡ goes_on (after_pull w e info sts.name m)
unfolding pull_plain deploy_runtime
pull_plain-deployed w e info sts m d = ground (arith, d.client_of, d.deployed, d.registered)

process-pull :
    (w : World) (e : PullModelEvent) (info : ModelInfo) (sts : StatefulSet) (m : Manager)
    → Deploys w e info sts
    → m.enable_dynamic_lora_loading ≡ false
    → lookup e.model_id m.runtimes ≡ none
    → process w (pull_model e) m ≡ goes_on (after_pull w e info sts.name m)
unfolding process process_pull_model_event
process-pull w e info sts m d off new = ground (
  arith,
  d.has_client,
  pull_new-plain w e info m d.got_model off,
  pull_plain-deployed w e info sts m d,
)

abbrev check_of : World → StatefulSet → Runtime → ReadinessCheckEvent
check_of w sts rt = record {
  model_id = sts.model_id;
  address = w.address_for sts.model_id rt.name;
  gpu = get_gpu sts.gpu_limits;
  replicas = sts.ready_replicas;
  pod = none;
  retry_count = 0;
  event_wait_ch = none;
}

reconcile_known-checks :
    (w : World) (sts : StatefulSet) (rt : Runtime) (m : Manager)
    → eqb sts.ready_replicas 0 ≡ false
    → w.new_client sts.model_id ≡ true
    → rt.ready ≡ false
    → reconcile_known w sts false rt m ≡ goes_on (spawn (readiness_check (check_of w sts rt)) m)
unfolding reconcile_known reconcile_pending
reconcile_known-checks w sts rt m some_ready client unready =
    ground (arith, some_ready, client, unready)

reconcile_found-checks :
    (w : World) (sts : StatefulSet) (rt : Runtime) (m : Manager)
    → eqb sts.ready_replicas 0 ≡ false
    → w.new_client sts.model_id ≡ true
    → lookup sts.model_id m.runtimes ≡ some rt
    → rt.ready ≡ false
    → reconcile_found w sts false m ≡ goes_on (spawn (readiness_check (check_of w sts rt)) m)
unfolding reconcile_found
reconcile_found-checks w sts rt m some_ready client there unready =
    ground (arith, there, reconcile_known-checks w sts rt m some_ready client unready)

reconcile_fetched-checks :
    (w : World) (sts : StatefulSet) (rt : Runtime) (m : Manager)
    → eqb sts.ready_replicas 0 ≡ false
    → w.new_client sts.model_id ≡ true
    → lookup sts.model_id m.runtimes ≡ some rt
    → rt.ready ≡ false
    → reconcile_fetched w sts.name (found_set sts) m
      ≡ goes_on (spawn (readiness_check (check_of w sts rt)) m)
unfolding reconcile_fetched
reconcile_fetched-checks w sts rt m some_ready client there unready =
    ground (arith, some_ready, reconcile_found-checks w sts rt m some_ready client there unready)

process-reconcile :
    (w : World) (sts : StatefulSet) (rt : Runtime) (m : Manager)
    → w.get_stateful_set sts.name ≡ found_set sts
    → eqb sts.ready_replicas 0 ≡ false
    → w.new_client sts.model_id ≡ true
    → lookup sts.model_id m.runtimes ≡ some rt
    → rt.ready ≡ false
    → process w (reconcile_stateful_set sts.name none) m
      ≡ goes_on (signal [] (spawn (readiness_check (check_of w sts rt)) m))
unfolding process process_reconcile_stateful_set_event reconcile_set
process-reconcile w sts rt m fetched some_ready client there unready =
    rw (fetched, reconcile_fetched-checks w sts rt m some_ready client there unready) refl

abbrev ready_runtime : ReadinessCheckEvent → Runtime → Runtime
ready_runtime e rt =
    closed_runtime ""
      (record (become_ready e.address e.gpu e.replicas rt) { pending_pull_model_requests = [] })

abbrev after_check : ReadinessCheckEvent → Runtime → Manager → Manager
after_check e rt m = signal (close_with "" e.event_wait_ch) (
    put_runtime e.model_id (ready_runtime e rt)
      (signal (close_all "" rt.wait_chs ++ []) (requeue_pending rt (forget_pod e.pod m))))

reachable-closes :
    (e : ReadinessCheckEvent) (rt : Runtime) (m : Manager)
    → reachable e rt m ≡ goes_on (after_check e rt m)
unfolding reachable close_wait_chs close_pending become_ready closed_runtime
reachable-closes e rt m = refl

process-check :
    (w : World) (e : ReadinessCheckEvent) (rt : Runtime) (m : Manager)
    → lookup e.model_id m.runtimes ≡ some rt
    → w.check e.address ≡ true
    → process w (readiness_check e) m ≡ goes_on (after_check e rt m)
unfolding process process_readiness_check_event
process-check w e rt m there ok = ground (arith, there, ok, reachable-closes e rt m)

take_spawned-last :
    (es : List ManagerEvent) (e : ManagerEvent)
    → take_spawned (length es) (es ++ e ∷ []) ≡ some (e, es)
unfolding take_spawned
take_spawned-last [] e = refl
take_spawned-last (x ∷ es) e = ground (arith, take_spawned-last es e)

pub step-caller :
    (w : World) (e : ManagerEvent) (m : Manager) → step (from_caller w e) m ≡ process w e m
unfolding step
step-caller w e m = refl

pub step-last :
    (w : World) (e : ManagerEvent) (m : Manager)
    → step (from_goroutine w (length m.spawned)) (spawn e m) ≡ process w e m
unfolding step
step-last w e m = ground (arith, take_spawned-last m.spawned e)

get_address-only :
    (now : ℕ) (address : String)
    → (get_address now (add_address address new_runtime_address_set)).1 ≡ some address
unfolding get_address add_address new_runtime_address_set add
get_address-only now address = refl

abbrev pub pull_of : StatefulSet → ℕ → PullModelEvent
pull_of sts ch = record { model_id = sts.model_id; ready_wait_ch = some ch }

-- The state after the pull and the reconciliation.
abbrev after_reconcile : World → PullModelEvent → ModelInfo → StatefulSet → Manager → Manager
after_reconcile w e info sts m =
    signal [] (record (put_runtime e.model_id (pulled_runtime w e info) m) {
      scalers = add sts.name m.scalers;
    })

get_llm_address-ready :
    (now : ℕ) (e : ReadinessCheckEvent) (rt : Runtime) (m : Manager)
    → m.locked ≡ false
    → lookup e.model_id m.runtimes ≡ some (ready_runtime e rt)
    → (get_llm_address e.model_id now m).1 ≡ gets e.address
unfolding get_llm_address become_ready closed_runtime
get_llm_address-ready now e rt m free there =
    ground (arith, free, there, get_address-only now e.address)

append-nil {ℓ} : {A : Type ℓ} (xs : List A) → xs ++ [] ≡ xs
append-nil [] = refl
append-nil (x ∷ xs) = ap (λ ys. x ∷ ys) (append-nil xs)

run-three :
    (i j k : Input) (m m1 m2 m3 : Manager)
    → step i m ≡ goes_on m1
    → step j m1 ≡ goes_on m2
    → step k m2 ≡ goes_on m3
    → run_state_machine (i ∷ j ∷ k ∷ []) m ≡ goes_on m3
unfolding run_state_machine
run-three i j k m m1 m2 m3 p q r = rw (p, q, r) refl

-- Where a model that has no runtime is pulled without dynamic loading of adapters, the deployment
-- succeeds, the stateful set has a ready replica, and its address answers, the events of the pull,
-- once they are processed, end the wait of the caller without an error, and the model has the
-- address.
pub pull-becomes_ready :
    (w : World) (info : ModelInfo) (sts : StatefulSet) (ch now : ℕ) (m : Manager)
    → Deploys w (pull_of sts ch) info sts
    → w.check (w.address_for sts.model_id (w.get_name sts.model_id sts.model_id)) ≡ true
    → m.enable_dynamic_lora_loading ≡ false
    → m.locked ≡ false
    → lookup sts.model_id m.runtimes ≡ none
    → (m' : Manager) × (run_state_machine
          (from_caller w (pull_model (pull_of sts ch))
            ∷ from_goroutine w (length m.spawned)
            ∷ from_goroutine w (length m.spawned)
            ∷ [])
          m
        ≡ goes_on m')
      × (m'.signals ≡ m.signals ++ closes ch "" ∷ [])
      × ((get_llm_address sts.model_id now m').1
          ≡ gets (w.address_for sts.model_id (w.get_name sts.model_id sts.model_id)))
unfolding new_pending_runtime requeue_pending
pull-becomes_ready w info sts ch now m d reached off free new =
    let e = pull_of sts ch in
    let rt = pulled_runtime w e info in
    let m1 : Manager = record (put_runtime e.model_id rt m) { scalers = add sts.name m.scalers } in
    let there : lookup sts.model_id m1.runtimes ≡ some rt =
      lookup-insert_self sts.model_id rt m.runtimes in
    let m2 = after_reconcile w e info sts m in
    let ev = check_of w sts rt in
    let s1 : step (from_caller w (pull_model e)) m
        ≡ goes_on (spawn (reconcile_stateful_set sts.name none) m1) =
      step-caller w (pull_model e) m ∙ process-pull w e info sts m d off new in
    let s2 : step (from_goroutine w (length m.spawned))
          (spawn (reconcile_stateful_set sts.name none) m1)
        ≡ goes_on (spawn (readiness_check ev) m2) =
      step-last w (reconcile_stateful_set sts.name none) m1
      ∙ process-reconcile w sts rt m1 d.fetched d.some_ready d.has_client there refl in
    let s3 : step (from_goroutine w (length m.spawned)) (spawn (readiness_check ev) m2)
        ≡ goes_on (after_check ev rt m2) =
      step-last w (readiness_check ev) m2 ∙ process-check w ev rt m2 there reached in
    let m3 = after_check ev rt m2 in
    (
      m3,
      run-three _ _ _ m _ _ m3 s1 s2 s3,
      rw (append-nil m.signals, append-nil (m.signals ++ closes ch "" ∷ [])) refl,
      get_llm_address-ready now ev rt m3 free
          (lookup-insert_self sts.model_id (ready_runtime ev rt) m2.runtimes),
    )
