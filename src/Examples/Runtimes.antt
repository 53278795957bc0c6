-- ===== src/Examples/Runtimes.antt =====
-- Runs of the engine's runtime manager.
use inference_manager.Base.{
  ==_iff, Bool-cases, List, String, [], add, arith, contains, false, get_elem?, inl, inr, insert,
  lookup, nat_eq, none, refl, some, string_eq, subst, true, ◌%◌, ◌+◌, ◌==◌, ◌∷◌, ◌≡◌,
}
use inference_manager.Runtime.Events.{
  ReadinessCheckEvent, Runtime, RuntimePod, blocks, closes, new_pending_runtime, pull_model,
}
use inference_manager.Runtime.Manager.{
  Manager, ModelInfo, and_then, become_ready, close_pending, close_wait_chs, closed_runtime,
  get_llm_address, gets, goes_on, new_manager, requeue_pending, sticks,
}
use inference_manager.Runtime.World.{StatefulSet, World, found_set, get_gpu, missing_config}
use inference_manager.Runtime.Machine.{
  Input, from_caller, from_goroutine, process, run_state_machine, step, take_spawned,
}
use inference_manager.Router.RouteMap.{model_eq}
use inference_manager.Runtime.AddressSet.{
  AddressSet, add_address, get_address, new_runtime_address_set,
}
use inference_manager.Runtime.AddressSet.RoundRobin.{after_gets, get_address-in_turn, is_usable}
use inference_manager.Runtime.Machine.Accounts.{answers, waits_in}
use inference_manager.Runtime.Machine.Accounts.Runs.{asked, run_state_machine-answers}
use inference_manager.Runtime.Machine.Faults.{lora_pull-blocks}
use inference_manager.Runtime.Machine.Readied.{Deploys, pull-becomes_ready, pull_of}
use inference_manager.Runtime.Machine.Settled.Runs.{run_state_machine-settled}
use inference_manager.Runtime.Pull.{
  deploy_runtime, is_dynamic_lora_loading_applicable, process_pull_model_event, pull_new,
  pull_plain, start_lora_pull,
}
use inference_manager.Runtime.Lifecycle.{
  process_reconcile_stateful_set_event, reconcile_fetched, reconcile_found, reconcile_known,
  reconcile_pending, reconcile_set,
}
use inference_manager.Runtime.Readiness.{process_readiness_check_event, reachable}

abbrev sts : StatefulSet
sts = record {
  name = "rt";
  model_id = "small";
  config = missing_config;
  status_replicas = 1;
  ready_replicas = 1;
  current_revision = "1";
  gpu_limits = 1 ∷ [];
}

abbrev info : ModelInfo
info = record { id = "small"; is_base_model = true; base_model_id = "" }

abbrev pod : RuntimePod
pod = record { name = "rt-0"; pod_ip = "10.0.0.9" }

-- Everything succeeds.
abbrev world : World
world = record {
  new_client = λ id. true;
  get_name = λ id base. "rt";
  address_for = λ id name. "rt:80";
  is_vllm = λ id. true;
  model_config_item = λ id model. "config";
  deploy = λ model update. some "rt";
  delete_runtime = λ id. true;
  get_model = λ id. some info;
  register = λ name. true;
  get_stateful_set = λ name. found_set sts;
  list_pods = λ name. some [];
  check = λ addr. true;
  select_target = λ name. some pod;
  target_exists = λ p. some true;
  pull = λ addr id. true;
  pull_status = λ addr id. some true;
  load = λ addr id. true;
  unload = λ addr id. true;
}

-- The model manager, the pods and the runtimes are away.
abbrev world_away : World
world_away = record world {
  get_model = λ id. none;
  check = λ addr. false;
  target_exists = λ p. some false;
}

abbrev empty_m : Manager
empty_m = new_manager false "8080"

deploys : Deploys world (pull_of sts 5) info sts
deploys = record {
  has_client = refl;
  client_of = refl;
  got_model = refl;
  deployed = refl;
  registered = refl;
  fetched = refl;
  some_ready = refl;
}

-- A pull on channel 5, the reconciliation and the readiness check.
abbrev inputs : List Input
inputs =
    from_caller world (pull_model (pull_of sts 5))
    ∷ from_goroutine world 0
    ∷ from_goroutine world 0
    ∷ []

pull-becomes_ready_example :
    (m' : Manager) × (run_state_machine inputs empty_m ≡ goes_on m')
    × (m'.signals ≡ closes 5 "" ∷ [])
    × ((get_llm_address "small" 0 m').1 ≡ gets "rt:80")
unfolding new_manager lookup
pull-becomes_ready_example =
    pull-becomes_ready world info sts 5 0 empty_m deploys refl refl refl refl

abbrev ready : Runtime
ready = record {
  name = "rt";
  mci = some "config";
  is_dynamically_loaded_lora = false;
  ready = true;
  wait_chs = [];
  last_err_reason = "";
  pending_pull_model_requests = [];
  addr_set = some (record {
    addresses = "rt:80" ∷ [];
    blacklisted_addresses = [];
    blacklist_duration = 10000000000;
    next_target = 0;
  });
  replicas = 1;
  gpu = 1;
}

abbrev ready_m : Manager
ready_m = record {
  enable_dynamic_lora_loading = false;
  puller_port = "8080";
  readiness_check_max_retry_count = 3;
  runtimes = ("small", ready) ∷ [];
  spawned = [];
  update_in_progress_pod_names = [];
  locked = false;
  signals = closes 5 "" ∷ [];
  scalers = "rt" ∷ [];
}

inputs_run : run_state_machine inputs empty_m ≡ goes_on ready_m
unfolding run_state_machine new_manager step process take_spawned process_pull_model_event pull_new
    is_dynamic_lora_loading_applicable pull_plain deploy_runtime new_pending_runtime
    process_reconcile_stateful_set_event reconcile_set reconcile_fetched reconcile_found
    reconcile_known reconcile_pending process_readiness_check_event reachable requeue_pending
    close_wait_chs close_pending closed_runtime become_ready add_address new_runtime_address_set add
    lookup insert get_gpu
inputs_run = refl

run_state_machine-answers_example : answers 5 ready_m.signals + waits_in 5 ready_m ≡ asked 5 inputs
run_state_machine-answers_example =
    run_state_machine-answers false "8080" inputs ready_m 5 inputs_run

run_state_machine-settled_example :
    (ready.wait_chs ≡ [])
    × (ready.pending_pull_model_requests ≡ [])
    × ((s : AddressSet) × (ready.addr_set ≡ some s))
unfolding lookup
run_state_machine-settled_example =
    run_state_machine-settled false "8080" inputs "small" ready (rw inputs_run refl) refl

abbrev several : AddressSet
several = record {
  addresses = "c" ∷ "a" ∷ "b" ∷ [];
  blacklisted_addresses = ("b", 3) ∷ [];
  blacklist_duration = 10;
  next_target = 1;
}

-- The address "b" is blacklisted.
two_usable : (a : String) → contains a ("a" ∷ "c" ∷ []) ≡ is_usable 5 several a
unfolding contains
two_usable a = elim (Bool-cases ("b" == a)) [
  | inl h ↦
      subst (λ x. contains x ("a" ∷ "c" ∷ []) ≡ is_usable 5 several x) ((==_iff "b" a).0 h) refl
  | inr h ↦ ground (arith, h)
]

get_address-in_turn_example :
    (get_address 5 (after_gets 3 5 several)).1 ≡ get_elem? ("a" ∷ "c" ∷ []) (4 % 2)
unfolding contains
get_address-in_turn_example =
    get_address-in_turn 3 5 several ("a" ∷ "c" ∷ []) (λ h. omega (arith, h))
      (refl, (refl, (refl, tt))) ((refl, tt), (tt, tt)) two_usable (λ h. ground (arith, h))

-- The check of an adapter on a pod.
abbrev check : ReadinessCheckEvent
check = record {
  model_id = "small";
  address = "rt:80";
  gpu = 1;
  replicas = 0;
  pod = some pod;
  retry_count = 0;
  event_wait_ch = none;
}

abbrev checking_m : Manager
checking_m = record ready_m { update_in_progress_pod_names = "rt-0" ∷ [] }

lora_pull-blocks_example :
    (m' : Manager) × (and_then
        (start_lora_pull world (pull_of sts 5) ready ready_m)
        (step (from_goroutine world_away 0))
      ≡ sticks blocks m')
lora_pull-blocks_example =
    lora_pull-blocks world world_away (pull_of sts 5) ready ready_m pod refl refl refl
