-- ===== src/Pods.antt =====
-- What is read of a pod, and the tests of engine/internal/runtime/pod_helper.go; below, the parts
-- of the engine that watch pods and models.
use inference_manager.Base.{
  Bool, List, String, [], contains, false, if◌then◌else◌, nat_eq, string_eq, ℕ, ◌&&◌, ◌==◌, ◌||◌,
  ◌∷◌,
}
use inference_manager.Infprocessor.Send.{waiting}
use inference_manager.Router.RouteMap.{model_eq}
pub mod Drifted
pub mod Activator
pub mod Adapters

-- A condition, by its type, status and reason.
pub record Condition : Type 0 where
  pub kind : String
  pub status : String
  pub reason : String

-- The label with the ordinal of a pod of a stateful set.
pub data PodIndex : Type 0 where
  no_label unparsable : PodIndex
  pod_index : ℕ → PodIndex

pub record Pod : Type 0 where
  pub name : String
  pub pod_ip : String
  pub conditions : List Condition
  -- The reasons for which containers wait.
  pub init_waiting : List String
  pub waiting : List String
  pub revision : String
  pub index : PodIndex
  pub gpu : ℕ

abbrev pub any_ready : List Condition → Bool
any_ready [] = false
any_ready (c ∷ cs) = c.kind == "Ready" && c.status == "True" || any_ready cs

unfoldable pub is_pod_ready : Pod → Bool
is_pod_ready p = any_ready p.conditions

-- The first condition `PodScheduled` decides.
abbrev pub unscheduled : List Condition → Bool
unscheduled [] = false
unscheduled (c ∷ cs) =
    if c.kind == "PodScheduled"
    then c.status == "False" && c.reason == "Unschedulable"
    else unscheduled cs

unfoldable pub is_pod_unschedulable : Pod → Bool
is_pod_unschedulable p = unscheduled p.conditions

unfoldable pub is_pod_crash_looping : Pod → Bool
is_pod_crash_looping p =
    contains "CrashLoopBackOff" p.init_waiting || contains "CrashLoopBackOff" p.waiting
