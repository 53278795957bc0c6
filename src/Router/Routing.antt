-- ===== src/Router/Routing.antt =====
-- server/internal/router/router.go: one routing table for each tenant.
use inference_manager.Base.{
  Bool, List, Option, String, [], if◌then◌else◌, insert, lookup, nat_eq, none, not, or_else, some,
  string_eq, ◌∷◌,
}
use inference_manager.Router.RouteMap.{
  RouteMap, add_or_update_engine, delete_engine, find_least_loaded_engine, get_route, is_empty,
  new_route_map,
}

pub data RouteError : Type 0 where
  no_route_found no_engine_available : RouteError

pub data Routed : Type 0 where
  routes : List String → Routed
  fails : RouteError → Routed

pub record Router : Type 0 where
  pub enable_dynamic_model_loading : Bool
  pub maps_by_tenant_id : List (String × RouteMap)

unfoldable pub new : Bool → Router
new dynamic = record { enable_dynamic_model_loading = dynamic; maps_by_tenant_id = [] }

-- The answer of `findLeastLoadedEngine`, as `GetEnginesForModel` passes it on.
abbrev pub one_engine : Option String → Routed
one_engine none = fails no_engine_available
one_engine (some engine) = routes (engine ∷ [])

abbrev pub routes_or_least : Bool → RouteMap → List String → List (String × Bool) → Routed
routes_or_least dynamic m found ignores =
    if not (is_empty found)
    then routes found
    else if not dynamic
    then fails no_route_found
    else one_engine (find_least_loaded_engine m ignores)

-- The answer from a tenant's table, if there is one.
abbrev pub answer : Bool → Option RouteMap → String → List (String × Bool) → Routed
answer dynamic none model_id ignores = fails no_route_found
answer dynamic (some m) model_id ignores =
    routes_or_least dynamic m (get_route m (record { id = model_id })) ignores

unfoldable pub get_engines_for_model : Router → String → String → List (String × Bool) → Routed
get_engines_for_model r model_id tenant_id ignores =
    answer r.enable_dynamic_model_loading (lookup tenant_id r.maps_by_tenant_id) model_id ignores

-- The tenant's table, made on demand.
abbrev pub tenant_map : Router → String → RouteMap
tenant_map r tenant_id = or_else (lookup tenant_id r.maps_by_tenant_id) new_route_map

unfoldable pub add_or_update : Router → String → String → List String → Router
add_or_update r engine_id tenant_id model_ids = record r {
  maps_by_tenant_id =
      insert tenant_id (add_or_update_engine (tenant_map r tenant_id) engine_id model_ids)
        r.maps_by_tenant_id;
}

unfoldable pub delete_from : Router → String → String → Router
delete_from r engine_id tenant_id = elim (lookup tenant_id r.maps_by_tenant_id) [
  | none ↦ r
  | some m ↦ record r {
    maps_by_tenant_id = insert tenant_id (delete_engine m engine_id) r.maps_by_tenant_id;
  }
]
