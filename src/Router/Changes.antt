-- ===== src/Router/Changes.antt =====
-- The tenants' tables of a router after a change (router.go).
use inference_manager.Base.{
  ==_iff, Bool, Bool-cases, List, Option, Option-cases, String, [], ap, arith, if◌then◌else◌, inl,
  inr, lookup, lookup-insert, nat_eq, none, some, string_eq, subst, ◌==◌, ◌∙◌, ◌∷◌, ◌≡◌,
}
use inference_manager.Router.RouteMap.{RouteMap, add_or_update_engine, delete_engine}
use inference_manager.Router.LeastLoaded.{Named}
use inference_manager.Router.Valid.{IsValid}
use inference_manager.Router.Routing.{
  Router, add_or_update, answer, delete_from, get_engines_for_model, tenant_map,
}

-- The tables of a router are valid, and no engine has the empty ID.
abbrev pub TenantsValid : List (String × RouteMap) → Type 0
TenantsValid [] = Unit {0}
TenantsValid ((t, m) ∷ ms) = (IsValid m × Named m) × TenantsValid ms

pub tenant-IsValid :
    (t : String) (ms : List (String × RouteMap)) {m : RouteMap}
    → TenantsValid ms
    → lookup t ms ≡ some m
    → IsValid m × Named m
unfolding lookup
tenant-IsValid t [] v e = absurd (cc e)
tenant-IsValid t ((u, n) ∷ ms) {m} v e = elim (Bool-cases (u == t)) [
  | inl same ↦ (let p : n ≡ m = ground arith in subst (λ x. IsValid x × Named x) p v.0)
  | inr other ↦ tenant-IsValid t ms v.1 (ground arith)
]

pub lookup-add_or_update :
    (r : Router) (e t other : String) (ids : List String)
    → lookup other (add_or_update r e t ids).maps_by_tenant_id ≡ (
        if t == other
        then some (add_or_update_engine (tenant_map r t) e ids)
        else lookup other r.maps_by_tenant_id)
unfolding add_or_update
lookup-add_or_update r e t other ids = lookup-insert other t _ r.maps_by_tenant_id

abbrev pub deleted : String → Option RouteMap → Option RouteMap
deleted e none = none
deleted e (some m) = some (delete_engine m e)

pub lookup-delete_from :
    (r : Router) (e t other : String)
    → lookup other (delete_from r e t).maps_by_tenant_id ≡ (
        if t == other
        then deleted e (lookup other r.maps_by_tenant_id)
        else lookup other r.maps_by_tenant_id)
unfolding delete_from
lookup-delete_from r e t other = elim (Option-cases (lookup t r.maps_by_tenant_id)) [
  | inl h ↦ rw (h, delete_from) (ground (arith, ==_iff t other))
  | inr (m, h) ↦
      rw (h, delete_from)
        (ground
          (arith, ==_iff t other, lookup-insert other t (delete_engine m e) r.maps_by_tenant_id))
]

dynamic-delete_from :
    (r : Router) (e t : String)
    → (delete_from r e t).enable_dynamic_model_loading ≡ r.enable_dynamic_model_loading
unfolding delete_from
dynamic-delete_from r e t = ground arith

pub get-delete_from :
    (r : Router) (e t other model_id : String) (ig : List (String × Bool))
    → get_engines_for_model (delete_from r e t) model_id other ig
      ≡ answer r.enable_dynamic_model_loading
          (if t == other
            then deleted e (lookup other r.maps_by_tenant_id)
            else lookup other r.maps_by_tenant_id)
          model_id
          ig
unfolding get_engines_for_model
get-delete_from r e t other model_id ig =
    ap (λ d. answer d (lookup other (delete_from r e t).maps_by_tenant_id) model_id ig)
      (dynamic-delete_from r e t)
    ∙ ap (λ o. answer r.enable_dynamic_model_loading o model_id ig) (lookup-delete_from r e t other)

pub get-add_or_update :
    (r : Router) (e t other model_id : String) (ids : List String) (ig : List (String × Bool))
    → get_engines_for_model (add_or_update r e t ids) model_id other ig
      ≡ answer r.enable_dynamic_model_loading
          (if t == other
            then some (add_or_update_engine (tenant_map r t) e ids)
            else lookup other r.maps_by_tenant_id)
          model_id
          ig
unfolding get_engines_for_model add_or_update
get-add_or_update r e t other model_id ids ig =
    ap (λ o. answer r.enable_dynamic_model_loading o model_id ig)
      (lookup-add_or_update r e t other ids)
