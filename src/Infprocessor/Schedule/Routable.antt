-- ===== src/Infprocessor/Schedule/Routable.antt =====
-- What a round of scheduling can come to, in a processor whose router and engines agree.
use inference_manager.Base.{
  ==_refl, Bool, Bool-cases, List, Option-cases, String, [], ap, arith, contains, eqb, false,
  filter, inl, inr, length, lookup, ltb, nat_eq, none, refl, some, string_eq, sym, true, ℕ, ◌==◌,
  ◌∙◌, ◌∷◌, ◌≡◌, ◌≢◌, ◌⊎◌,
}
use inference_manager.Router.Tenants.{names, names_known}
use inference_manager.Router.Routing.{Routed, Router, answer, fails, get_engines_for_model, routes}
use inference_manager.Infprocessor.Engines.Consistency.{IsConsistent, is_ready_engine, knows}
use inference_manager.Infprocessor.Schedule.Choice.{find_most_preferred_engine-Preferred}
use inference_manager.Infprocessor.Schedule.{
  Outcome, after_assign, after_choice, after_routes, assign_task_to_engine, err, fatal,
  find_least_loaded, find_most_preferred_engine, found, get_engines_for_task, of_routed, ok,
  prefer_local, returns, schedule_task, send, split_engines,
}
use inference_manager.Infprocessor.State.{Engine, Processor, SentTask, in_progress, tenant_engines}
use inference_manager.Infprocessor.Task.{Task, TaskError, model, no_route, send_failed}
use inference_manager.Router.RouteMap.{is_empty}
use inference_manager.Infprocessor.Engines.{update_task}
use inference_manager.Infprocessor.Schedule.Least.{find_least_loaded-Best}
use inference_manager.Infprocessor.Schedule.Split.{
  all_found, is_remote, split_engines-all_found, split_of,
}
use inference_manager.Router.Changes.{TenantsValid, tenant-IsValid}

routes_known :
    (r : Router) (model_id tenant_id : String) (ig : List (String × Bool)) (ids : List String)
    (x : String)
    → TenantsValid r.maps_by_tenant_id
    → get_engines_for_model r model_id tenant_id ig ≡ routes ids
    → contains x ids ≡ true
    → knows r tenant_id x ≡ true
unfolding get_engines_for_model
routes_known r model_id tenant_id ig ids x v h c =
    elim (Option-cases (lookup tenant_id r.maps_by_tenant_id)) [
      | inl n ↦ absurd (no_map n)
      | inr (m, s) ↦
          let (valid, named) = tenant-IsValid tenant_id r.maps_by_tenant_id v s in
          let at_m : answer r.enable_dynamic_model_loading (some m) model_id ig ≡ routes ids =
            ap (λ o. answer r.enable_dynamic_model_loading o model_id ig) (sym s) ∙ h in
          rw s (
            names_known r.enable_dynamic_model_loading m (record { id = model_id }) ig x valid named
              (ap (λ a. names a x) at_m ∙ c))
    ]
  where
    no_map : ¬ (lookup tenant_id r.maps_by_tenant_id ≡ none)
    no_map n = cc (ap (λ o. answer r.enable_dynamic_model_loading o model_id ig) n, h)

routes-ne-nil :
    (r : Router) (model_id tenant_id : String) (ig : List (String × Bool)) (ids : List String)
    → get_engines_for_model r model_id tenant_id ig ≡ routes ids
    → is_empty ids ≡ false
unfolding get_engines_for_model
routes-ne-nil r model_id tenant_id ig ids h = ground arith

found_least :
    (tasks : List Task) (es : List Engine)
    → is_empty es ≡ false
    → (x : Engine) × (found (find_least_loaded tasks es) ≡ ok x)
found_least tasks [] h = absurd (cc h)
found_least tasks (e ∷ es) h =
    let (x, eq, _, _) = find_least_loaded-Best tasks e es in (x, ap found eq)

remote_left :
    (es : List Engine)
    → is_empty es ≡ false
    → ltb 0 (length (filter (λ (e : Engine). e.is_local) es)) ≡ false
    → is_empty (filter is_remote es) ≡ false
remote_left [] h n = h
remote_left (e ∷ es) h n = ground arith

local_there : (es : List Engine) → ltb 0 (length es) ≡ true → is_empty es ≡ false
local_there [] h = cc h
local_there (e ∷ es) h = refl

module _ (engines : List (String × Engine)) where
  all_found_of_each :
      (ids : List String)
      → ((x : String) → contains x ids ≡ true → lookup x engines ≢ none)
      → (es : List Engine) × (all_found engines ids ≡ some es) × (is_empty es ≡ is_empty ids)
  unfolding all_found contains
  all_found_of_each [] h = ([], refl, refl)
  all_found_of_each (id ∷ ids) h =
      let (es, below, _) = all_found_of_each ids (λ x c. h x (ground (arith, c))) in
      elim (Option-cases (lookup id engines)) [
        | inl n ↦ absurd (h id (ground (arith, ==_refl id)) n)
        | inr (e, s) ↦ (e ∷ es, rw (s, below), refl)
      ]

  found_all :
      (tasks : List Task) (ids : List String)
      → is_empty ids ≡ false
      → ((x : String) → contains x ids ≡ true → lookup x engines ≢ none)
      → (e : Engine) × (prefer_local tasks (split_engines engines ids [] []) ≡ ok e)
  found_all tasks ids ne h =
      let (es, all, same) = all_found_of_each ids h in
      let locals = filter (λ (e : Engine). e.is_local) es in
      let split : split_engines engines ids [] [] ≡ some (locals, filter is_remote es) =
        split_engines-all_found engines ids [] [] ∙ ap (split_of [] []) all in
      rw split (elim (Bool-cases (ltb 0 (length locals))) [
        | inl c ↦ rw c (found_least tasks locals (local_there locals c))
        | inr c ↦ rw c (found_least tasks (filter is_remote es) (remote_left es (same ∙ ne) c))
      ])

module _ (p : Processor) (consistent : IsConsistent p) where
  -- A route that the router gives leads to an engine.
  choice_exists :
      (ids : List String) (tenant_id : String)
      → is_empty ids ≡ false
      → ((x : String) → contains x ids ≡ true → knows p.engine_router tenant_id x ≡ true)
      → (e : Engine) × (find_most_preferred_engine p ids tenant_id ≡ ok e)
  unfolding find_most_preferred_engine contains lookup
  choice_exists [] tenant_id ne k = cc ne
  choice_exists (id ∷ ids) tenant_id ne k =
      let engines = tenant_engines p tenant_id in
      let (e, h) =
        found_all engines (in_progress p) (id ∷ ids) ne
          (λ x c n. cc (consistent.backed tenant_id x (k x c), ap is_ready_engine n)) in
      let some_engine : eqb (length engines) 0 ≡ false =
        nonempty_engines engines
          (consistent.backed tenant_id id (k id (ground (arith, ==_refl id)))) in
      (e, rw some_engine h)
    where
      nonempty_engines :
          (es : List (String × Engine))
          → is_ready_engine (lookup id es) ≡ true
          → eqb (length es) 0 ≡ false
      nonempty_engines [] r = absurd (cc r)
      nonempty_engines (x ∷ es) r = ground arith

  -- The engine chosen is still there when it is assigned, if nobody takes the lock in between.
  assign_returns :
      (ref : ℕ) (t : Task) (ids : List String) {e : Engine}
      → find_most_preferred_engine p ids t.tenant_id ≡ ok e
      → assign_task_to_engine ref t e.id p
        ≡ returns (ok (update_task ref (λ x. record x { engine_id = e.id }) p))
  unfolding assign_task_to_engine
  assign_returns ref t ids {e} h =
      let (id, _, at_id) = (find_most_preferred_engine-Preferred p ids t.tenant_id h).listed in
      let same : e.id ≡ id = consistent.keyed t.tenant_id id e at_id in
      let there : lookup e.id (tenant_engines p t.tenant_id) ≡ some e =
        ap (λ k. lookup k (tenant_engines p t.tenant_id)) same ∙ at_id in
      rw (assign_task_to_engine, there)

  -- Where the engines and the router are in step and no other goroutine takes the lock in between,
  -- scheduling a task never ends the process.
  pub schedule_task-ne-fatal :
      (sends : ℕ → SentTask → Bool) (ref : ℕ) (t : Task) → schedule_task sends ref t p ≢ fatal
  unfolding schedule_task
  schedule_task-ne-fatal sends ref t = at_routes (get_engines_for_task p t)
    where
      at_choice :
          (ids : List String) (o : Outcome Engine)
          → find_most_preferred_engine p ids t.tenant_id ≡ o
          → after_choice sends ref t p o ≢ fatal
      at_choice ids (err x) c f = cc f
      at_choice ids (ok e) c f = cc (ap (after_assign sends e t p) (assign_returns ref t ids c), f)

      at_routes : (o : Outcome (List String)) → after_routes sends ref t p o ≢ fatal
      at_routes (err x) f = cc f
      at_routes (ok ids) f = at_choice ids (find_most_preferred_engine p ids t.tenant_id) refl f

  -- Where the engines and the router are in step and every table of the router is valid, a task
  -- that names no engine fails to be scheduled only where the router has no route for its model,
  -- and then the processor is unchanged, or where the stream to the chosen engine does not take
  -- it.
  pub schedule_task_failure :
      (sends : ℕ → SentTask → Bool) (ref : ℕ) (t : Task) (q : Processor) (x : TaskError)
      → TenantsValid p.engine_router.maps_by_tenant_id
      → (t.target_engine_id == "") ≡ true
      → schedule_task sends ref t p ≡ returns (q, err x)
      → ((x ≡ no_route) × (q ≡ p)) ⊎ (x ≡ send_failed)
  unfolding schedule_task get_engines_for_task
  schedule_task_failure sends ref t q x valid untargeted h =
      at_routes
        (get_engines_for_model p.engine_router (model t) t.tenant_id t.preferred_ignored_engines)
        refl (rw untargeted at h)
    where
      at_routes :
          (o : Routed)
          → get_engines_for_model p.engine_router (model t) t.tenant_id t.preferred_ignored_engines
            ≡ o
          → after_routes sends ref t p (of_routed o) ≡ returns (q, err x)
          → ((x ≡ no_route) × (q ≡ p)) ⊎ (x ≡ send_failed)
      at_routes (fails e) r f = inl (ground arith, ground arith)
      at_routes (routes ids) r f =
          let (e, c) =
            choice_exists ids t.tenant_id (routes-ne-nil p.engine_router _ _ _ ids r)
              (λ y m. routes_known p.engine_router _ _ _ ids y valid r m) in
          let assigned = assign_returns ref t ids c in
          let sent : returns
                (send sends e t (update_task ref (λ (y : Task). record y { engine_id = e.id }) p))
              ≡ returns (q, err x) =
            sym (ap (after_assign sends e t p) assigned)
            ∙ (sym (ap (after_choice sends ref t p) c) ∙ f) in
          inr (ground (arith, sent))
