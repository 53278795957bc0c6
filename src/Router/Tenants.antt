-- ===== src/Router/Tenants.antt =====
-- What a router answers for a tenant after a change (router.go).
use inference_manager.Base.{
  ==_iff, ==_refl, Bool, Bool-cases, List, Option-cases, String, [], ap, arith, contains,
  contains-add, contains-remove, false, inl, inr, insert, lookup, nat_eq, or_else, refl, some,
  string_eq, true, ◌==◌, ◌∙◌, ◌∷◌, ◌≡◌,
}
use inference_manager.Router.RouteMap.{
  Model, RouteMap, add_or_update_engine, delete_engine, find_least_loaded_engine, get_route,
  model_eq, new_route_map,
}
use inference_manager.Router.LeastLoaded.{Named, find_least_loaded_engine-least}
use inference_manager.Router.Valid.{
  IsValid, delete_engine-IsValid, new_route_map-IsValid, served_by-route, update-IsValid,
}
use inference_manager.Router.Routing.{
  Routed, Router, add_or_update, answer, delete_from, fails, get_engines_for_model, routes,
  routes_or_least, tenant_map,
}
use inference_manager.Router.Table.{apply_update-specified}
use inference_manager.Router.Changes.{
  TenantsValid, get-add_or_update, get-delete_from, tenant-IsValid,
}

-- Registering an engine for a tenant and deleting one leave every answer for another tenant as it
-- was.
pub other_tenant_unchanged :
    (r : Router) (engine_id tenant_id other model_id : String) (ids : List String)
    (ig : List (String × Bool))
    → (tenant_id == other) ≡ false
    → (get_engines_for_model (add_or_update r engine_id tenant_id ids) model_id other ig
        ≡ get_engines_for_model r model_id other ig)
      × (get_engines_for_model (delete_from r engine_id tenant_id) model_id other ig
          ≡ get_engines_for_model r model_id other ig)
unfolding get_engines_for_model
other_tenant_unchanged r engine_id tenant_id other model_id ids ig ne = (
  get-add_or_update r engine_id tenant_id other model_id ids ig ∙ rw ne,
  get-delete_from r engine_id tenant_id other model_id ig ∙ rw ne,
)

-- Whether an answer names an engine.
abbrev pub names : Routed → String → Bool
names (routes es) x = contains x es
names (fails e) x = false

names_route :
    (d : Bool) (m : RouteMap) (es : List String) (ig : List (String × Bool)) (x : String)
    → contains x es ≡ true
    → names (routes_or_least d m es ig) x ≡ true
unfolding contains
names_route d m [] ig x h = cc
names_route d m (e ∷ es) ig x h = h

-- A registered engine is among the answers for each of its models, whatever engines are ignored.
pub update_names :
    (r : Router) (engine_id tenant_id model_id : String) (ids : List String)
    (ig : List (String × Bool))
    → contains model_id ids ≡ true
    → names
        (get_engines_for_model (add_or_update r engine_id tenant_id ids) model_id tenant_id ig)
        engine_id
      ≡ true
update_names r engine_id tenant_id model_id ids ig h =
    rw (get-add_or_update r engine_id tenant_id tenant_id model_id ids ig, ==_refl tenant_id)
      (names_route r.enable_dynamic_model_loading (add_or_update_engine m engine_id ids) _ ig
        engine_id
        (ap (λ t. t.serves (record { id = model_id }) engine_id)
            (apply_update-specified engine_id ids m)
          ∙ rw (==_refl engine_id) h))
  where
    m : RouteMap
    m = tenant_map r tenant_id

pub names_known :
    (d : Bool) (m : RouteMap) (md : Model) (ig : List (String × Bool)) (x : String)
    → IsValid m
    → Named m
    → names (routes_or_least d m (get_route m md) ig) x ≡ true
    → contains x m.engines ≡ true
unfolding contains get_route
names_known d m md ig x v n h = ground (
  arith,
  v.known x,
  served_by-route md m.m x,
  find_least_loaded_engine-least m ig x v.known v.sets n,
  ==_iff (or_else (find_least_loaded_engine m ig) "") x,
)

delete_engine-Named : (e : String) (m : RouteMap) → Named m → Named (delete_engine m e)
unfolding delete_engine
delete_engine-Named e m n = ground (arith, n, contains-remove "" e m.engines)

delete_engine_unknown : (e : String) (m : RouteMap) → contains e (delete_engine m e).engines ≡ false
unfolding delete_engine
delete_engine_unknown e m = ground (arith, contains-remove e e m.engines, ==_refl e)

-- Where the tables of the router are valid, once an engine is deleted for a tenant, no answer for
-- the tenant names it, not even as the least loaded engine.
pub delete_not_names :
    (r : Router) (engine_id tenant_id model_id : String) (ig : List (String × Bool))
    → TenantsValid r.maps_by_tenant_id
    → names
        (get_engines_for_model (delete_from r engine_id tenant_id) model_id tenant_id ig)
        engine_id
      ≡ false
unfolding get_engines_for_model
delete_not_names r engine_id tenant_id model_id ig v =
    rw (get-delete_from r engine_id tenant_id tenant_id model_id ig, ==_refl tenant_id)
      (elim (Option-cases (lookup tenant_id r.maps_by_tenant_id)) [
        | inl h ↦ rw h
        | inr (m, h) ↦ rw h (gone m (tenant-IsValid tenant_id r.maps_by_tenant_id v h))
      ])
  where
    gone :
        (m : RouteMap)
        → IsValid m × Named m
        → names
            (answer r.enable_dynamic_model_loading (some (delete_engine m engine_id)) model_id ig)
            engine_id
          ≡ false
    gone m (valid, named) =
        elim (Bool-cases (
          names
            (answer r.enable_dynamic_model_loading (some (delete_engine m engine_id)) model_id ig)
            engine_id)) [
              | inr e ↦ e
              | inl e ↦ cc (
                names_known r.enable_dynamic_model_loading (delete_engine m engine_id)
                    (record { id = model_id }) ig engine_id
                    (delete_engine-IsValid engine_id m valid)
                    (delete_engine-Named engine_id m named) e,
                delete_engine_unknown engine_id m,
              )
            ]

TenantsValid-insert :
    (t : String) (m : RouteMap) (ms : List (String × RouteMap))
    → IsValid m
    → Named m
    → TenantsValid ms
    → TenantsValid (insert t m ms)
unfolding insert
TenantsValid-insert t m [] v n vs = ((v, n), tt)
TenantsValid-insert t m ((u, k) ∷ ms) v n vs = elim (Bool-cases (u == t)) [
  | inl e ↦ rw (e, insert) ((v, n), vs.1)
  | inr e ↦ rw (e, insert) (vs.0, TenantsValid-insert t m ms v n vs.1)
]

tenant_map-IsValid :
    (r : Router) (t : String)
    → TenantsValid r.maps_by_tenant_id
    → IsValid (tenant_map r t) × Named (tenant_map r t)
unfolding new_route_map contains
tenant_map-IsValid r t v = elim (Option-cases (lookup t r.maps_by_tenant_id)) [
  | inl h ↦ rw h (new_route_map-IsValid, refl)
  | inr (m, h) ↦ rw h (tenant-IsValid t r.maps_by_tenant_id v h)
]

update-Named :
    (e : String) (ids : List String) (m : RouteMap)
    → (e == "") ≡ false
    → Named m
    → Named (add_or_update_engine m e ids)
unfolding add_or_update_engine
update-Named e ids m h n = ground (arith, h, n, contains-add "" e m.engines)

pub delete_from-TenantsValid :
    (r : Router) (engine_id tenant_id : String)
    → TenantsValid r.maps_by_tenant_id
    → TenantsValid (delete_from r engine_id tenant_id).maps_by_tenant_id
unfolding delete_from
delete_from-TenantsValid r e t v = elim (Option-cases (lookup t r.maps_by_tenant_id)) [
  | inl n ↦ rw (n, delete_from) v
  | inr (m, s) ↦
      let (valid, named) = tenant-IsValid t r.maps_by_tenant_id v s in
      rw (s, delete_from)
        (TenantsValid-insert t _ r.maps_by_tenant_id (delete_engine-IsValid e m valid)
          (delete_engine-Named e m named) v)
]

-- Registering an engine that has an ID, and deleting any engine, keep every tenant's table valid.
pub router-TenantsValid :
    (r : Router) (engine_id tenant_id : String) (ids : List String)
    → (engine_id == "") ≡ false
    → TenantsValid r.maps_by_tenant_id
    → TenantsValid (add_or_update r engine_id tenant_id ids).maps_by_tenant_id
      × TenantsValid (delete_from r engine_id tenant_id).maps_by_tenant_id
unfolding add_or_update
router-TenantsValid r e t ids h v = (
  TenantsValid-insert t _ r.maps_by_tenant_id (update-IsValid e ids _ (tenant_map-IsValid r t v).0)
      (update-Named e ids _ h (tenant_map-IsValid r t v).1) v,
  delete_from-TenantsValid r e t v,
)
