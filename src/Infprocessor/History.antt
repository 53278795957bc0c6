-- ===== src/Infprocessor/History.antt =====
-- The engines and the router over a history of reports, removals and heartbeats.
use inference_manager.Base.{
  Bool, Bool-cases, List, Option, Option-cases, String, [], arith, contains, false, inl, inr,
  lookup, nat_eq, not, refl, string_eq, true, ℕ, ◌&&◌, ◌==◌, ◌∷◌, ◌≡◌,
}
use inference_manager.Infprocessor.State.{EngineStatus, Processor, in_progress, new_p}
use inference_manager.Infprocessor.Engines.{
  add_or_update_engine_status, forget_engine, ready_ids, remove_engine, tasks_of,
  update_last_engine_heartbeat,
}
use inference_manager.Infprocessor.Engines.Consistency.{
  IsConsistent, cancel_all-engines, keyed_reported, remove_engine-IsConsistent, status-IsConsistent,
}
use inference_manager.Infprocessor.Send.{
  note_heartbeat, send_heartbeat_task_to_engines, send_task_to_engines, targets,
}
use inference_manager.Router.Routing.{new}
use inference_manager.Router.Changes.{TenantsValid}
use inference_manager.Infprocessor.Task.{TaskError}
use inference_manager.Router.RouteMap.{model_eq, new_route_map}
use inference_manager.Router.Tenants.{delete_from-TenantsValid, router-TenantsValid}
use inference_manager.Infprocessor.Send.Broadcast.{send_heartbeat-IsConsistent}

pub data Operation : Type 0 where
  engine_reports : ℕ → EngineStatus → String → Bool → Operation
  engine_goes : String → String → Operation
  engines_beat : (String × String → Option TaskError) → ℕ → Operation

pub operate : Operation → Processor → Processor
operate (engine_reports sender s t is_local) p = add_or_update_engine_status sender s t is_local p
operate (engine_goes engine_id t) p = remove_engine engine_id t p
operate (engines_beat sends now) p = (send_heartbeat_task_to_engines sends now p).0

pub history : List Operation → Processor → Processor
history [] p = p
history (o ∷ os) p = history os (operate o p)

-- Every report has the ID of an engine.
abbrev pub have_ids : List Operation → Bool
have_ids [] = true
have_ids (engine_reports sender s t is_local ∷ os) = not (s.engine_id == "") && have_ids os
have_ids (engine_goes engine_id t ∷ os) = have_ids os
have_ids (engines_beat sends now ∷ os) = have_ids os

note_heartbeat-router :
    (now : ℕ) (x : String) (p : Processor)
    → (note_heartbeat now x p).engine_router ≡ p.engine_router
unfolding update_last_engine_heartbeat
note_heartbeat-router now x p = ground arith

send-router :
    (sends : String × String → Option TaskError) (now : ℕ) (xs : List (String × String))
    (p : Processor)
    → (send_task_to_engines sends (note_heartbeat now) xs p).0.engine_router ≡ p.engine_router
unfolding send_task_to_engines
send-router sends now [] p = refl
send-router sends now (x ∷ xs) p = ground (
  arith,
  note_heartbeat-router now x.1 p,
  send-router sends now xs p,
  send-router sends now xs (note_heartbeat now x.1 p),
)

abbrev RouterValid : Processor → Type 0
RouterValid p = TenantsValid p.engine_router.maps_by_tenant_id

report-RouterValid :
    (sender : ℕ) (s : EngineStatus) (t : String) (is_local : Bool) (p : Processor)
    → (s.engine_id == "") ≡ false
    → IsConsistent p
    → RouterValid p
    → RouterValid (add_or_update_engine_status sender s t is_local p)
unfolding add_or_update_engine_status
report-RouterValid sender s t is_local p named c v =
    let (a, d) = router-TenantsValid p.engine_router s.engine_id t (ready_ids s.models) named v in
    elim (Bool-cases s.ready) [ inl y ↦ rw (y, keyed_reported p sender s t c) a | inr n ↦ rw n d ]

forget-RouterValid :
    (engine_id t : String) (p : Processor)
    → RouterValid p
    → RouterValid (forget_engine engine_id t p)
unfolding forget_engine
forget-RouterValid engine_id t p v = elim (Option-cases (lookup t p.engines)) [
  | inl n ↦ rw (n, forget_engine) v
  | inr (es, n) ↦ rw (n, forget_engine) (delete_from-TenantsValid p.engine_router engine_id t v)
]

remove-RouterValid :
    (engine_id t : String) (p : Processor)
    → RouterValid p
    → RouterValid (remove_engine engine_id t p)
unfolding remove_engine
remove-RouterValid engine_id t p v =
    let ids = tasks_of engine_id (in_progress p) in
    rw ((cancel_all-engines ids (forget_engine engine_id t p)).1)
      (forget-RouterValid engine_id t p v)

beat-RouterValid :
    (sends : String × String → Option TaskError) (now : ℕ) (p : Processor)
    → RouterValid p
    → RouterValid (send_heartbeat_task_to_engines sends now p).0
unfolding send_heartbeat_task_to_engines
beat-RouterValid sends now p v = rw (send-router sends now (targets (λ e. e.ready) p) p) v

pub operate-IsConsistent :
    (o : Operation) (p : Processor) → IsConsistent p → IsConsistent (operate o p)
unfolding operate
operate-IsConsistent (engine_reports sender s t is_local) p c =
    status-IsConsistent p sender s t is_local c
operate-IsConsistent (engine_goes engine_id t) p c = remove_engine-IsConsistent engine_id t p c
operate-IsConsistent (engines_beat sends now) p c = send_heartbeat-IsConsistent sends now p c

history-InStep :
    (os : List Operation) (p : Processor)
    → have_ids os ≡ true
    → IsConsistent p
    → RouterValid p
    → IsConsistent (history os p) × RouterValid (history os p)
unfolding history operate
history-InStep [] p h c v = (c, v)
history-InStep (o ∷ os) p h c v =
    history-InStep os (operate o p) (ground arith) (operate-IsConsistent o p c) (valid o h)
  where
    valid : (o : Operation) → have_ids (o ∷ os) ≡ true → RouterValid (operate o p)
    valid (engine_reports sender s t is_local) h =
        report-RouterValid sender s t is_local p (ground arith) c v
    valid (engine_goes engine_id t) h = remove-RouterValid engine_id t p v
    valid (engines_beat sends now) h = beat-RouterValid sends now p v

pub new_p-IsConsistent : (b : Bool) → IsConsistent (new_p (new b))
unfolding new_p new lookup contains new_route_map
new_p-IsConsistent b = record { keyed = λ t x e h. ground arith; backed = λ t x h. ground arith }

-- After any history of status reports with an engine ID, removals of engines and rounds of
-- heartbeats on a new processor, an engine stands under its own ID, an engine that the router
-- knows for a tenant is an engine of this tenant that reported ready, and every table of the
-- router is valid.
pub new_p-InStep :
    (dynamic : Bool) (os : List Operation)
    → have_ids os ≡ true
    → IsConsistent (history os (new_p (new dynamic)))
      × TenantsValid (history os (new_p (new dynamic))).engine_router.maps_by_tenant_id
unfolding new_p new
new_p-InStep dynamic os h =
    history-InStep os (new_p (new dynamic)) h (new_p-IsConsistent dynamic) tt
