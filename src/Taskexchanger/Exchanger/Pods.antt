-- ===== src/Taskexchanger/Exchanger/Pods.antt =====
-- The receivers that the exchanger keeps for the pods of the other servers.
use Prim.Native.String.{◌++◌}
use inference_manager.Base.{
  ==_iff, Bool, Bool-cases, Option, Option-cases, String, ap, arith, false, inl, inr, lookup,
  lookup-delete, lookup-insert, nat_eq, none, not, refl, some, string_eq, sym, true, ◌&&◌, ◌==◌,
  ◌||◌, ◌∙◌, ◌≡◌,
}
use inference_manager.Taskexchanger.Receiver.{TaskReceiver, new_task_receiver}
use inference_manager.Taskexchanger.Exchanger.{
  Exchanger, Pod, create_task_receiver, delete_task_receiver, reconcile,
}

abbrev is_there : Option TaskReceiver → Bool
is_there none = false
is_there (some r) = true

abbrev pub has_receiver : Exchanger → String → Bool
has_receiver e x = is_there (lookup x e.task_receivers)

-- Whether a server can be reached: it has an address and does not end.
abbrev pub is_reachable : Pod → Bool
is_reachable pod = not (pod.pod_ip == "") && not pod.is_deleted

abbrev pub expected : String → Option Pod → Exchanger → String → Bool
expected name none e x = not (name == x) && has_receiver e x
expected name (some pod) e x = is_reachable pod && pod.name == x || has_receiver e x

has_receiver-create :
    (pod : Pod) (e : Exchanger) (x : String)
    → has_receiver (create_task_receiver pod e) x ≡ (pod.name == x || has_receiver e x)
unfolding create_task_receiver
has_receiver-create pod e x = elim (Option-cases (lookup pod.name e.task_receivers)) [
  | inl h ↦
      rw (create_task_receiver, h)
        (ap is_there (
            lookup-insert x pod.name (new_task_receiver (pod.pod_ip ++ ":" ++ e.grpc_port))
              e.task_receivers)
          ∙ ground arith)
  | inr (r, h) ↦
      rw (create_task_receiver, h)
        (elim (Bool-cases (pod.name == x)) [
          | inl c ↦ rw c (
              ap (λ k. is_there (lookup k e.task_receivers)) (sym ((==_iff pod.name x).0 c))
              ∙ ap is_there h)
          | inr c ↦ rw c refl
        ])
]

-- Reconciling a pod makes a receiver for it exactly where the pod is there, has an address and is
-- not being deleted, deletes the receiver where the pod is not found, and leaves every other
-- receiver as it was.
pub reconcile-has_receiver :
    (name : String) (pod : Option Pod) (e : Exchanger) (x : String)
    → has_receiver (reconcile name pod e) x ≡ expected name pod e x
unfolding reconcile delete_task_receiver
reconcile-has_receiver name none e x =
    ap is_there (lookup-delete x name e.task_receivers) ∙ ground arith
reconcile-has_receiver name (some pod) e x = ground (arith, has_receiver-create pod e x)
