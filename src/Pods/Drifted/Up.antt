-- ===== src/Pods/Drifted/Up.antt =====
-- The pods that are up, and those that fail, read off their conditions.
use inference_manager.Base.{
  Bool, List, String, [], arith, contains, false, if◌then◌else◌, length, nat_eq, not, refl,
  string_eq, true, ℕ, ◌&&◌, ◌+◌, ◌==◌, ◌||◌, ◌∷◌, ◌≡◌,
}
use inference_manager.Pods.{
  Condition, Pod, any_ready, is_pod_crash_looping, is_pod_ready, is_pod_unschedulable, unscheduled,
}
use inference_manager.Pods.Drifted.{pod_names, settled_pods}
use inference_manager.Router.RouteMap.{model_eq}
use inference_manager.Infprocessor.State.{in_progress}

abbrev pub has_condition : String → String → List Condition → Bool
has_condition kind status [] = false
has_condition kind status (c ∷ cs) =
    c.kind == kind && c.status == status || has_condition kind status cs

abbrev pub has_reason : String → String → List Condition → Bool
has_reason kind reason [] = false
has_reason kind reason (c ∷ cs) = c.kind == kind && c.reason == reason || has_reason kind reason cs

-- Ready, and not being updated.
abbrev pub is_up : List String → Pod → Bool
is_up in_progress p = has_condition "Ready" "True" p.conditions && not (contains p.name in_progress)

abbrev pub count_up : List String → List Pod → ℕ
count_up in_progress [] = 0
count_up in_progress (p ∷ ps) = (if is_up in_progress p then 1 else 0) + count_up in_progress ps

abbrev pub any_up : List String → String → List Pod → Bool
any_up in_progress name [] = false
any_up in_progress name (p ∷ ps) =
    p.name == name && is_up in_progress p || any_up in_progress name ps

-- Not scheduled, as unschedulable, or with a container that is waiting in a crash loop.
abbrev pub is_failing : Pod → Bool
is_failing p =
    has_condition "PodScheduled" "False" p.conditions
      && has_reason "PodScheduled" "Unschedulable" p.conditions
    || contains "CrashLoopBackOff" p.init_waiting
    || contains "CrashLoopBackOff" p.waiting

any_ready-has_condition : (cs : List Condition) → any_ready cs ≡ has_condition "Ready" "True" cs
any_ready-has_condition [] = refl
any_ready-has_condition (c ∷ cs) = ground (arith, any_ready-has_condition cs)

unscheduled-has_condition :
    (cs : List Condition)
    → unscheduled cs ≡ true
    → (has_condition "PodScheduled" "False" cs && has_reason "PodScheduled" "Unschedulable" cs)
      ≡ true
unscheduled-has_condition [] h = h
unscheduled-has_condition (c ∷ cs) h = ground (arith, unscheduled-has_condition cs)

pub failing-is_failing :
    (p : Pod) → (is_pod_unschedulable p || is_pod_crash_looping p) ≡ true → is_failing p ≡ true
unfolding is_pod_unschedulable is_pod_crash_looping
failing-is_failing p h = ground (arith, unscheduled-has_condition p.conditions)

pub length-settled_pods :
    (in_progress : List String) (ps : List Pod)
    → length (settled_pods in_progress ps) ≡ count_up in_progress ps
unfolding settled_pods is_pod_ready
length-settled_pods in_progress [] = refl
length-settled_pods in_progress (p ∷ ps) =
    ground (arith, length-settled_pods in_progress ps, any_ready-has_condition p.conditions)

pub contains-settled_pods :
    (in_progress : List String) (name : String) (ps : List Pod)
    → contains name (pod_names (settled_pods in_progress ps)) ≡ any_up in_progress name ps
unfolding settled_pods is_pod_ready contains
contains-settled_pods in_progress name [] = refl
contains-settled_pods in_progress name (p ∷ ps) =
    ground (arith, contains-settled_pods in_progress name ps, any_ready-has_condition p.conditions)
