-- ===== src/Examples/Routers.antt =====
-- server/internal/router on small tables.
use inference_manager.Base.{
  List, String, [], arith, contains, false, insert, lookup, nat_eq, none, refl, some, string_eq,
  true, ◌↔◌, ◌∷◌, ◌≡◌, ◌≤◌,
}
use inference_manager.Router.RouteMap.{
  Model, RouteMap, candidates, find_least_loaded_engine, ignored, load_model, load_models, model_eq,
  new_route_map, pick_min,
}
use inference_manager.Router.Load.{RoutesKnown, SetsDistinct, eligible, load}
use inference_manager.Router.LeastLoaded.{
  find_least_loaded_engine-least, find_least_loaded_engine-none_iff,
}
use inference_manager.Router.Valid.{IsValid}
use inference_manager.Router.Table.{
  Op, apply_all, deletes_engine, empty_table, history-specified, specified_all, updates_engine,
  view,
}
use inference_manager.Router.Routing.{Router, add_or_update, delete_from, get_engines_for_model}
use inference_manager.Router.Tenants.{delete_not_names, names, other_tenant_unchanged, update_names}
use inference_manager.Router.Changes.{TenantsValid}

abbrev small_model : Model
small_model = record { id = "small" }

-- `e1` serves a model, `e2` none.
abbrev table : RouteMap
table = record { m = (small_model, "e1" ∷ []) ∷ []; engines = "e1" ∷ "e2" ∷ [] }

table_known : RoutesKnown table
unfolding contains
table_known x h = ground (arith, h)

table_sets : SetsDistinct table.m
unfolding contains
table_sets = ((refl, tt), tt)

table-IsValid : IsValid table
table-IsValid = record { known = table_known; sets = table_sets }

picks_idle : find_least_loaded_engine table [] ≡ some "e2"
unfolding find_least_loaded_engine candidates load_models load_model pick_min ignored lookup insert
picks_idle = refl

find_least_loaded_engine-least_example :
    (eligible table [] "e2" ≡ true)
    × ((y : String) → eligible table [] y ≡ true → load table.m "e2" ≤ load table.m y)
unfolding contains
find_least_loaded_engine-least_example =
    find_least_loaded_engine-least table [] "e2" table_known table_sets refl picks_idle

find_least_loaded_engine-none_iff_example :
    (find_least_loaded_engine table (("e1", true) ∷ []) ≡ none)
    ↔ ((y : String) → eligible table (("e1", true) ∷ []) y ≡ false)
find_least_loaded_engine-none_iff_example =
    find_least_loaded_engine-none_iff table (("e1", true) ∷ [])

abbrev ops : List Op
ops =
    updates_engine "e1" ("small" ∷ [])
    ∷ updates_engine "e1" ("large" ∷ [])
    ∷ deletes_engine "e2"
    ∷ []

history-specified_example : view (apply_all ops new_route_map) ≡ specified_all ops empty_table
history-specified_example = history-specified ops

abbrev router : Router
router = record { enable_dynamic_model_loading = true; maps_by_tenant_id = ("t1", table) ∷ [] }

router_valid : TenantsValid router.maps_by_tenant_id
unfolding contains
router_valid = ((table-IsValid, refl), tt)

delete_not_names_example :
    names (get_engines_for_model (delete_from router "e2" "t1") "large" "t1" []) "e2" ≡ false
delete_not_names_example = delete_not_names router "e2" "t1" "large" [] router_valid

update_names_example :
    names
      (get_engines_for_model (add_or_update router "e2" "t1" ("large" ∷ [])) "large" "t1" [])
      "e2"
    ≡ true
unfolding contains
update_names_example = update_names router "e2" "t1" "large" ("large" ∷ []) [] refl

other_tenant_unchanged_example :
    (get_engines_for_model (add_or_update router "e2" "t2" []) "small" "t1" []
      ≡ get_engines_for_model router "small" "t1" [])
    × (get_engines_for_model (delete_from router "e2" "t2") "small" "t1" []
        ≡ get_engines_for_model router "small" "t1" [])
other_tenant_unchanged_example = other_tenant_unchanged router "e2" "t2" "t1" "small" [] [] refl
