-- ===== src/Infprocessor/Schedule/Race.antt =====
-- The gap between the choice of an engine and the assignment, in which the lock is free.
use inference_manager.Base.{
  ==_refl, Option-cases, String, [], ap, arith, inl, inr, lookup, nat_eq, none, or_else, some,
  string_eq, ℕ, ◌↔◌, ◌∙◌, ◌≡◌,
}
use inference_manager.Infprocessor.Engines.Consistency.{cancel_all-engines, lookup_forgotten}
use inference_manager.Infprocessor.Engines.{forget_engine, remove_engine, tasks_of, update_task}
use inference_manager.Infprocessor.Schedule.{assign_task_to_engine, fatal, ok, returns}
use inference_manager.Infprocessor.State.{Engine, Processor, in_progress, tenant_engines}
use inference_manager.Infprocessor.Task.{Task}

removed-lookup :
    (engine_id t : String) (p : Processor)
    → lookup engine_id (tenant_engines (remove_engine engine_id t p) t) ≡ none
unfolding remove_engine
removed-lookup engine_id t p =
    let (e, _) =
      cancel_all-engines (tasks_of engine_id (in_progress p)) (forget_engine engine_id t p) in
    ap (λ m. lookup engine_id (or_else (lookup t m) [])) e
    ∙ ground (arith, lookup_forgotten engine_id t p t engine_id, ==_refl t, ==_refl engine_id)

assigned :
    (ref : ℕ) (t : Task) (engine_id : String) (p : Processor) {e : Engine}
    → lookup engine_id (tenant_engines p t.tenant_id) ≡ some e
    → assign_task_to_engine ref t engine_id p
      ≡ returns (ok (update_task ref (λ x. record x { engine_id = engine_id }) p))
unfolding assign_task_to_engine
assigned ref t engine_id p n = rw (assign_task_to_engine, n)

-- An assignment ends the process exactly where the tenant does not have the engine, as the error
-- path unlocks the mutex by hand and the deferred call unlocks it again; so does the assignment of
-- a task to an engine that is removed after it was chosen.
pub assign_after_remove-fatal :
    (ref : ℕ) (t : Task) (engine_id : String) (p : Processor)
    → ((assign_task_to_engine ref t engine_id p ≡ fatal)
        ↔ (lookup engine_id (tenant_engines p t.tenant_id) ≡ none))
      × (assign_task_to_engine ref t engine_id (remove_engine engine_id t.tenant_id p) ≡ fatal)
unfolding assign_task_to_engine
assign_after_remove-fatal ref t engine_id p = (
  elim (Option-cases (lookup engine_id (tenant_engines p t.tenant_id))) [
    | inl n ↦ (λ h. n, λ h. rw (assign_task_to_engine, n))
    | inr (e, n) ↦ (λ h. absurd (cc (h, assigned ref t engine_id p n)), λ h. absurd (cc (h, n)))
  ],
  rw (assign_task_to_engine, removed-lookup engine_id t.tenant_id p),
)
