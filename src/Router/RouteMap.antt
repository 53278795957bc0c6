-- ===== src/Router/RouteMap.antt =====
-- server/internal/router/route_map.go: the routing table of one tenant.
use inference_manager.Base.{
  ℕ, ◌++◌, ◌==◌, ◌||◌, ◌↔◌, ◌∷◌, ◌≡◌, ==_iff, Bool, Eq, List, Option, String, [], add, false,
  if◌then◌else◌, insert, length, lookup, ltb, map_values, min, nat_eq, none, or_else, remove, some,
  string_eq, true,
}

pub record Model : Type 0 where
  pub id : String

pub Model-equals_iff : (a b : Model) → ((a.id == b.id) ≡ true) ↔ (a ≡ b)
Model-equals_iff a b = (
  λ h. (let e : a.id ≡ b.id = (==_iff a.id b.id).0 h in λ i. record { id = e i }),
  λ h. (==_iff a.id b.id).1 (λ i. (h i).id),
)

instance abbrev pub model_eq : Eq Model
model_eq = record { equals = λ a b. a.id == b.id; equals_iff = Model-equals_iff }

pub record RouteMap : Type 0 where
  -- From a model to the engines that serve it.
  pub m : List (Model × List String)
  -- The known engines.
  pub engines : List String

unfoldable pub new_route_map : RouteMap
new_route_map = record { m = []; engines = [] }

-- The engines of a model; a missing entry reads as the empty set.
unfoldable pub get_route : RouteMap → Model → List String
get_route r md = or_else (lookup md r.m) []

-- `r.m[model][engineID] = struct{}{}`, with the inner map made on demand.
unfoldable pub serve : String → List (Model × List String) → Model → List (Model × List String)
serve engine_id m md = insert md (add engine_id (or_else (lookup md m) [])) m

unfoldable pub add_route : RouteMap → Model → String → RouteMap
unfolding serve
add_route r md engine_id = record r {
  m = serve engine_id r.m md;
  engines = add engine_id r.engines;
}

unfoldable pub delete_route : RouteMap → Model → String → RouteMap
delete_route r md engine_id = elim (lookup md r.m) [
  | none ↦ r
  | some engines ↦ record r { m = insert md (remove engine_id engines) r.m }
]

unfoldable pub serve_all :
    String → List (Model × List String) → List String → List (Model × List String)
serve_all engine_id m [] = m
serve_all engine_id m (id ∷ ids) = serve_all engine_id (serve engine_id m (record { id = id })) ids

unfoldable pub add_or_update_engine : RouteMap → String → List String → RouteMap
add_or_update_engine r engine_id model_ids = record {
  m = serve_all engine_id (map_values (remove engine_id) r.m) model_ids;
  engines = add engine_id r.engines;
}

unfoldable pub delete_engine : RouteMap → String → RouteMap
delete_engine r engine_id = record {
  m = map_values (remove engine_id) r.m;
  engines = remove engine_id r.engines;
}

-- `ignores[id]`: a missing key, and a nil map, read as false.
unfoldable pub ignored : List (String × Bool) → String → Bool
ignored ignores id = or_else (lookup id ignores) false

-- The first loop of `findLeastLoadedEngine`: an empty list of models for each engine in play.
unfoldable pub candidates :
    List (String × Bool) → List String → List (String × List Model) → List (String × List Model)
candidates ignores [] models_by_id = models_by_id
candidates ignores (id ∷ ids) models_by_id =
    candidates ignores ids (if ignored ignores id then models_by_id else insert id [] models_by_id)

-- `modelsByID[id] = append(modelsByID[id], model)` for each engine of the model.
unfoldable pub load_model :
    List (String × Bool)
    → Model
    → List String
    → List (String × List Model)
    → List (String × List Model)
load_model ignores md [] models_by_id = models_by_id
load_model ignores md (id ∷ ids) models_by_id = load_model ignores md ids (
    if ignored ignores id
    then models_by_id
    else insert id (or_else (lookup id models_by_id) [] ++ md ∷ []) models_by_id)

unfoldable pub load_models :
    List (String × Bool)
    → List (Model × List String)
    → List (String × List Model)
    → List (String × List Model)
load_models ignores [] models_by_id = models_by_id
load_models ignores ((md, engines) ∷ m) models_by_id =
    load_models ignores m (load_model ignores md engines models_by_id)

-- The last loop: `id` starts as "", which stands for "none yet".
unfoldable pub pick_min : ℕ → String → List (String × List Model) → String
pick_min min id [] = id
pick_min min id ((k, v) ∷ rest) =
    let taken = ltb (length v) min || id == "" in
    pick_min (if taken then length v else min) (if taken then k else id) rest

abbrev pub is_empty {ℓ} : {A : Type ℓ} → List A → Bool
is_empty [] = true
is_empty (x ∷ xs) = false

unfoldable pub find_least_loaded_engine : RouteMap → List (String × Bool) → Option String
find_least_loaded_engine r ignores =
    let start = candidates ignores r.engines [] in
    if is_empty start then none else some (pick_min 0 "" (load_models ignores r.m start))
