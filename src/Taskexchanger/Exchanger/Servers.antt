-- ===== src/Taskexchanger/Exchanger/Servers.antt =====
-- What servers that come, report and go do to the processor.
use inference_manager.Base.{
  All, Bool, Bool-cases, List, Option-cases, String, [], arith, false, if◌then◌else◌, inl, inr,
  lookup, lookup-delete, lookup-insert, nat_eq, none, not, or_else, refl, some, string_eq, subst,
  sym, true, ℕ, ◌&&◌, ◌++◌, ◌==◌, ◌∙◌, ◌∷◌, ◌≡◌,
}
use inference_manager.Infprocessor.Engines.Consistency.{IsConsistent}
use inference_manager.Infprocessor.State.{EngineStatus, Processor}
use inference_manager.Taskexchanger.Sender.{
  StatusWithTenantId, TaskSender, add_or_update_engines, new_task_sender, remove_all_engines,
}
use inference_manager.Taskexchanger.Sender.Removal.{
  Keyed, active_list, add_or_update_engines-Kept, has_engine, lists, unreported_gone,
}
use inference_manager.Taskexchanger.Receiver.{
  TaskReceiver, all_with_ready, all_with_tenant, build_statuses, with_ready, with_tenant,
}
use inference_manager.Taskexchanger.Exchanger.{
  Exchanger, add_or_update_server_status, remove_server,
}
use inference_manager.Infprocessor.Engines.{local_engines}
use inference_manager.Infprocessor.Send.Broadcast.{some-inj}

-- The processor's engines and router are in step, and each sender's engines stand under their IDs.
pub record IsInStep (e : Exchanger) : Type 0 where
  pub consistent : IsConsistent e.inf_processor
  pub keyed :
      (name : String) (s : TaskSender)
      → lookup name e.task_senders ≡ some s
      → Keyed s.active_engines

module _ (sender_for : ℕ → String → ℕ) where
  sender_of :
      (srv : ℕ) (name : String) (e : Exchanger)
      → IsInStep e
      → Keyed (or_else (lookup name e.task_senders) (new_task_sender srv)).active_engines
  unfolding new_task_sender
  sender_of srv name e v = elim (Option-cases (lookup name e.task_senders)) [
    | inl h ↦ rw h tt
    | inr (s, h) ↦ rw h (v.keyed name s h)
  ]

  -- A report of a server keeps the exchanger's invariant: the processor's engines and router are
  -- in step, and each sender's engines stand under their IDs.
  pub server_status-IsInStep :
      (srv : ℕ) (name : String) (statuses : List StatusWithTenantId) (e : Exchanger)
      → IsInStep e
      → IsInStep (add_or_update_server_status sender_for srv name statuses e)
  unfolding add_or_update_server_status
  server_status-IsInStep srv name statuses e v =
      let s = or_else (lookup name e.task_senders) (new_task_sender srv) in
      let (c, k) =
        add_or_update_engines-Kept sender_for statuses s e.inf_processor (sender_of srv name e v)
          v.consistent in
      record {
        consistent = c;
        keyed = λ n s' h.
            at_name n s' (add_or_update_engines sender_for statuses s e.inf_processor).0 k
              (v.keyed n s')
              (sym (
                  lookup-insert n name
                    (add_or_update_engines sender_for statuses s e.inf_processor).0 e.task_senders)
                ∙ h);
      }
    where
      at_name :
          (n : String) (s' : TaskSender) (new : TaskSender)
          → Keyed new.active_engines
          → (lookup n e.task_senders ≡ some s' → Keyed s'.active_engines)
          → (if name == n then some new else lookup n e.task_senders) ≡ some s'
          → Keyed s'.active_engines
      at_name n s' new k old h = elim (Bool-cases (name == n)) [
        | inl c ↦ subst (λ x. Keyed x.active_engines) (some-inj (rw c at h)) k
        | inr c ↦ old (rw c at h)
      ]

  -- The removal of a server keeps the exchanger's invariant: the processor's engines and router
  -- are in step, and each sender's engines stand under their IDs.
  pub remove_server-IsInStep :
      (name : String) (e : Exchanger) → IsInStep e → IsInStep (remove_server sender_for name e)
  unfolding remove_server remove_all_engines
  remove_server-IsInStep name e v = elim (Option-cases (lookup name e.task_senders)) [
    | inl h ↦ rw (remove_server, h) v
    | inr (s, h) ↦
        rw (remove_server, h)
          (record {
            consistent =
                (add_or_update_engines-Kept sender_for [] s e.inf_processor (v.keyed name s h)
                  v.consistent).0;
            keyed = λ n s' k.
                v.keyed n s' (not_deleted n s' (sym (lookup-delete n name e.task_senders) ∙ k));
          })
  ]
    where
      not_deleted :
          (n : String) (s' : TaskSender)
          → (if name == n then none else lookup n e.task_senders) ≡ some s'
          → lookup n e.task_senders ≡ some s'
      not_deleted n s' h = elim (Bool-cases (name == n)) [
        | inl c ↦ absurd (cc (rw c at h))
        | inr c ↦ rw c at h
      ]

  -- Where the exchanger is in step, once a server is removed, the processor has none of the
  -- engines that this server had last reported.
  pub remove_server-gone :
      (name : String) (e : Exchanger) (s : TaskSender) (t x : String)
      → IsInStep e
      → lookup name e.task_senders ≡ some s
      → lists t x (active_list s.active_engines) ≡ true
      → has_engine (remove_server sender_for name e).inf_processor t x ≡ false
  unfolding remove_server remove_all_engines
  remove_server-gone name e s t x v h l =
      rw (remove_server, h)
        (unreported_gone sender_for [] s e.inf_processor (v.keyed name s h) t x l refl)

-- A report of a server that shuts down.
abbrev pub AllUnready : List StatusWithTenantId → Type 0
AllUnready = All (λ s. s.engine_status.ready ≡ false)

AllUnready-append :
    (xs ys : List StatusWithTenantId) → AllUnready xs → AllUnready ys → AllUnready (xs ++ ys)
AllUnready-append [] ys a b = b
AllUnready-append (x ∷ xs) ys (h, a) b = (h, AllUnready-append xs ys a b)

AllUnready-tenant :
    (t : String) (es : List EngineStatus) → AllUnready (with_tenant t (with_ready false es))
AllUnready-tenant t [] = tt
AllUnready-tenant t (e ∷ es) = (refl, AllUnready-tenant t es)

AllUnready-all :
    (m : List (String × List EngineStatus)) → AllUnready (all_with_tenant (all_with_ready false m))
AllUnready-all [] = tt
AllUnready-all ((t, es) ∷ m) =
    AllUnready-append (with_tenant t (with_ready false es))
      (all_with_tenant (all_with_ready false m)) (AllUnready-tenant t es) (AllUnready-all m)

-- Every engine in a report of a server that shuts down is reported as not ready.
pub build_statuses-AllUnready :
    (ready : Bool) (p : Processor) (r : TaskReceiver) (statuses : List StatusWithTenantId)
    → r.is_shutdown ≡ true
    → (build_statuses ready p r).1 ≡ some statuses
    → AllUnready statuses
unfolding build_statuses
build_statuses-AllUnready ready p r statuses down h = subst AllUnready (ground (arith, h)) (
    subst (λ b. AllUnready (all_with_tenant (all_with_ready (not b && ready) (local_engines p))))
      (sym down) (AllUnready-all (local_engines p)))
