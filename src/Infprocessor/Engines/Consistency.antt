-- ===== src/Infprocessor/Engines/Consistency.antt =====
-- The router and the map of engines agree.
use inference_manager.Base.{
  ==_iff, Bool, Bool-cases, List, Option, Option-cases, String, [], ap, arith, contains,
  contains-add, contains-remove, delete, false, if◌then◌else◌, inl, inr, insert, lookup,
  lookup-delete, lookup-insert, nat_eq, none, not, or_else, refl, some, string_eq, sym, true, ℕ,
  ◌&&◌, ◌==◌, ◌||◌, ◌∙◌, ◌∷◌, ◌≡◌, ◌⊎◌,
}
use inference_manager.Router.RouteMap.{add_or_update_engine, delete_engine, model_eq, new_route_map}
use inference_manager.Router.Routing.{Router, add_or_update, delete_from, tenant_map}
use inference_manager.Infprocessor.State.{
  Engine, EngineStatus, Processor, in_progress, tenant_engines,
}
use inference_manager.Infprocessor.Task.{ResultOrError, engine_removed, failure}
use inference_manager.Infprocessor.Engines.{
  add_or_update_engine_status, cancel_all, current_engine, forget_engine, ready_ids, remove_engine,
  reported, tasks_of, write_result_to_task,
}
use inference_manager.Router.Changes.{lookup-add_or_update, lookup-delete_from}

-- Whether a tenant has the engine, and it is ready.
abbrev pub is_ready_engine : Option Engine → Bool
is_ready_engine none = false
is_ready_engine (some e) = e.ready

abbrev pub has_ready : Processor → String → String → Bool
has_ready p t x = is_ready_engine (lookup x (tenant_engines p t))

-- Whether the router knows an engine of a tenant.
abbrev pub knows : Router → String → String → Bool
knows r t x = contains x (tenant_map r t).engines

-- Engines stand under their own IDs, and the router knows, for each tenant, only engines that the
-- processor has and that are ready.
pub record IsConsistent (p : Processor) : Type 0 where
  pub keyed : (t x : String) (e : Engine) → lookup x (tenant_engines p t) ≡ some e → e.id ≡ x
  pub backed : (t x : String) → knows p.engine_router t x ≡ true → has_ready p t x ≡ true

knows-add_or_update :
    (r : Router) (e t : String) (ids : List String) (t' x : String)
    → knows (add_or_update r e t ids) t' x ≡ ((t == t' && e == x) || knows r t' x)
unfolding add_or_update_engine
knows-add_or_update r e t ids t' x =
    ap (λ o. contains x (or_else o new_route_map).engines) (lookup-add_or_update r e t t' ids)
    ∙ ground (arith, ==_iff t t', contains-add x e (tenant_map r t).engines)

knows-delete_from :
    (r : Router) (e t t' x : String)
    → knows (delete_from r e t) t' x ≡ (not (t == t' && e == x) && knows r t' x)
unfolding delete_engine new_route_map contains
knows-delete_from r e t t' x =
    ap (λ o. contains x (or_else o new_route_map).engines) (lookup-delete_from r e t t')
    ∙ elim (Option-cases (lookup t' r.maps_by_tenant_id)) [
      | inl h ↦ rw h (ground arith)
      | inr (m, h) ↦ rw h (ground (arith, contains-remove x e m.engines))
    ]

pub keyed_reported :
    (p : Processor) (sender : ℕ) (s : EngineStatus) (t : String)
    → IsConsistent p
    → (current_engine p sender s t).id ≡ s.engine_id
keyed_reported p sender s t v = elim (Option-cases (lookup s.engine_id (tenant_engines p t))) [
  | inl h ↦ rw h
  | inr (e, h) ↦ rw h (v.keyed t s.engine_id e h)
]

module _ (p : Processor) (sender : ℕ) (s : EngineStatus) (t : String) (is_local : Bool) where
  pub new_entry : Engine
  new_entry = reported (current_engine p sender s t) sender s is_local

  pub lookup_reported :
      (t' x : String)
      → lookup x (tenant_engines (add_or_update_engine_status sender s t is_local p) t')
        ≡ (if t == t' && s.engine_id == x then some new_entry else lookup x (tenant_engines p t'))
  unfolding add_or_update_engine_status new_entry lookup
  lookup_reported t' x =
      ap (λ o. lookup x (or_else o []))
        (lookup-insert t' t (insert s.engine_id new_entry (tenant_engines p t)) p.engines)
      ∙ ground (arith, ==_iff t t', lookup-insert x s.engine_id new_entry (tenant_engines p t))

  knows_reported :
      (t' x : String)
      → IsConsistent p
      → knows (add_or_update_engine_status sender s t is_local p).engine_router t' x ≡ (
          if s.ready
          then (t == t' && s.engine_id == x) || knows p.engine_router t' x
          else not (t == t' && s.engine_id == x) && knows p.engine_router t' x)
  unfolding add_or_update_engine_status
  knows_reported t' x v = elim (Bool-cases s.ready) [
    | inl y ↦
        rw (y, keyed_reported p sender s t v)
          (knows-add_or_update p.engine_router s.engine_id t (ready_ids s.models) t' x)
    | inr n ↦ rw n (knows-delete_from p.engine_router s.engine_id t t' x)
  ]

  -- A status report keeps the engines and the router in step: an engine stands under its own ID,
  -- and an engine that the router knows for a tenant is an engine of this tenant that reported
  -- ready.
  pub status-IsConsistent :
      IsConsistent p → IsConsistent (add_or_update_engine_status sender s t is_local p)
  unfolding new_entry
  status-IsConsistent v = record {
    keyed = λ t' x e h. ground (
      arith,
      lookup_reported t' x,
      keyed_reported p sender s t v,
      ==_iff s.engine_id x,
      v.keyed t' x e,
    );
    backed = λ t' x h.
        ground
          (arith, ap is_ready_engine (lookup_reported t' x), knows_reported t' x v, v.backed t' x);
  }

module _ (engine_id t : String) (p : Processor) where
  pub lookup_forgotten :
      (t' x : String)
      → lookup x (tenant_engines (forget_engine engine_id t p) t')
        ≡ (if t == t' && engine_id == x then none else lookup x (tenant_engines p t'))
  unfolding forget_engine lookup
  lookup_forgotten t' x = elim (Option-cases (lookup t p.engines)) [
    | inl h ↦ rw (h, forget_engine) (ground (arith, ==_iff t t'))
    | inr (es, h) ↦
        rw (h, forget_engine)
          (ap (λ o. lookup x (or_else o [])) (lookup-insert t' t (delete engine_id es) p.engines)
            ∙ ground (arith, ==_iff t t', lookup-delete x engine_id es))
  ]

  knows_forgotten :
      (t' x : String)
      → knows (forget_engine engine_id t p).engine_router t' x ≡ true
      → (knows p.engine_router t' x ≡ true)
        × (((t == t' && engine_id == x) ≡ false) ⊎ (lookup t p.engines ≡ none))
  unfolding forget_engine
  knows_forgotten t' x = elim (Option-cases (lookup t p.engines)) [
    | inl h ↦ rw (h, forget_engine) (λ k. (k, inr refl))
    | inr (es, h) ↦
        rw (h, forget_engine)
          (λ k. ground (arith, knows-delete_from p.engine_router engine_id t t' x))
  ]

  forget-IsConsistent : IsConsistent p → IsConsistent (forget_engine engine_id t p)
  unfolding lookup
  forget-IsConsistent v = record {
    keyed = λ t' x e h. ground (arith, lookup_forgotten t' x, v.keyed t' x e);
    backed = λ t' x h. ground (
      arith,
      ap is_ready_engine (lookup_forgotten t' x),
      knows_forgotten t' x h,
      v.backed t' x,
      ==_iff t t',
    );
  }

write_result-engines :
    (id : String) (r : ResultOrError) (p : Processor)
    → ((write_result_to_task id r p).engines ≡ p.engines)
      × ((write_result_to_task id r p).engine_router ≡ p.engine_router)
unfolding write_result_to_task
write_result-engines id r p = ground arith

pub cancel_all-engines :
    (ids : List String) (p : Processor)
    → ((cancel_all ids p).engines ≡ p.engines)
      × ((cancel_all ids p).engine_router ≡ p.engine_router)
unfolding cancel_all
cancel_all-engines [] p = (refl, refl)
cancel_all-engines (id ∷ ids) p =
    let (a, b) = cancel_all-engines ids (write_result_to_task id (failure engine_removed) p) in
    let (c, d) = write_result-engines id (failure engine_removed) p in (a ∙ c, b ∙ d)

-- The removal of an engine, with the errors it writes to the tasks of the engine, keeps the
-- engines and the router in step.
pub remove_engine-IsConsistent :
    (engine_id t : String) (p : Processor)
    → IsConsistent p
    → IsConsistent (remove_engine engine_id t p)
unfolding remove_engine
remove_engine-IsConsistent engine_id t p v =
    let q = forget_engine engine_id t p in
    let (e, r) = cancel_all-engines (tasks_of engine_id (in_progress p)) q in
    let w = forget-IsConsistent engine_id t p v in
    record {
      keyed =
          λ t' x n h. w.keyed t' x n (ap (λ m. lookup x (or_else (lookup t' m) [])) (sym e) ∙ h);
      backed = λ t' x h.
          ap (λ m. is_ready_engine (lookup x (or_else (lookup t' m) []))) e
          ∙ w.backed t' x (ap (λ m. knows m t' x) (sym r) ∙ h);
    }

-- The engines after a removal.
pub lookup-remove_engine :
    (engine_id t : String) (p : Processor) (t' x : String)
    → lookup x (tenant_engines (remove_engine engine_id t p) t')
      ≡ (if t == t' && engine_id == x then none else lookup x (tenant_engines p t'))
unfolding remove_engine
lookup-remove_engine engine_id t p t' x =
    ap (λ m. lookup x (or_else (lookup t' m) []))
      (cancel_all-engines (tasks_of engine_id (in_progress p)) (forget_engine engine_id t p)).0
    ∙ lookup_forgotten engine_id t p t' x
