-- ===== src/Router/Load.antt =====
-- The choice of the engine with the fewest models (`findLeastLoadedEngine`).
use inference_manager.Base.{
  ==_iff, Bool, Distinct, Distinct-insert, List, String, [], arith, contains, contains-keys-insert,
  false, if◌then◌else◌, keys, length, length-append, lookup, lookup-insert, nat_eq, not, or_else,
  refl, string_eq, true, ℕ, ◌&&◌, ◌++◌, ◌+◌, ◌||◌, ◌∙◌, ◌∷◌, ◌≡◌,
}
use inference_manager.Router.RouteMap.{
  Model, RouteMap, candidates, ignored, load_model, load_models, model_eq,
}

candidates-Distinct :
    (ig : List (String × Bool)) (ids : List String) (acc : List (String × List Model))
    → Distinct (keys acc)
    → Distinct (keys (candidates ig ids acc))
unfolding candidates
candidates-Distinct ig [] acc h = h
candidates-Distinct ig (id ∷ ids) acc h =
    candidates-Distinct ig ids _ (ground (arith, Distinct-insert id [] acc))

load_model-Distinct :
    (ig : List (String × Bool)) (md : Model) (ids : List String) (acc : List (String × List Model))
    → Distinct (keys acc)
    → Distinct (keys (load_model ig md ids acc))
unfolding load_model
load_model-Distinct ig md [] acc h = h
load_model-Distinct ig md (id ∷ ids) acc h =
    load_model-Distinct ig md ids _
      (ground (arith, Distinct-insert id (or_else (lookup id acc) [] ++ md ∷ []) acc))

load_models-Distinct :
    (ig : List (String × Bool)) (m : List (Model × List String)) (acc : List (String × List Model))
    → Distinct (keys acc)
    → Distinct (keys (load_models ig m acc))
unfolding load_models
load_models-Distinct ig [] acc h = h
load_models-Distinct ig ((md, es) ∷ m) acc h =
    load_models-Distinct ig m (load_model ig md es acc) (load_model-Distinct ig md es acc h)

-- The number of models that an engine serves.
abbrev pub load : List (Model × List String) → String → ℕ
load [] x = 0
load ((md, es) ∷ m) x = (if contains x es then 1 else 0) + load m x

-- What the loops have counted for an engine so far.
abbrev pub size_of : List (String × List Model) → String → ℕ
size_of acc x = length (or_else (lookup x acc) [])

candidates-size :
    (ig : List (String × Bool)) (ids : List String) (acc : List (String × List Model)) (x : String)
    → size_of acc x ≡ 0
    → size_of (candidates ig ids acc) x ≡ 0
unfolding candidates
candidates-size ig [] acc x h = h
candidates-size ig (id ∷ ids) acc x h =
    candidates-size ig ids _ x (ground (arith, lookup-insert x id [] acc))

pub candidates-keys :
    (ig : List (String × Bool)) (ids : List String) (acc : List (String × List Model)) (x : String)
    → contains x (keys (candidates ig ids acc))
      ≡ ((contains x ids && not (ignored ig x)) || contains x (keys acc))
unfolding candidates contains
candidates-keys ig [] acc x = refl
candidates-keys ig (id ∷ ids) acc x =
    candidates-keys ig ids _ x ∙ ground (arith, ==_iff id x, contains-keys-insert x id [] acc)

load_model-keys :
    (ig : List (String × Bool)) (md : Model) (es : List String) (acc : List (String × List Model))
    (x : String)
    → contains x (keys (load_model ig md es acc))
      ≡ ((contains x es && not (ignored ig x)) || contains x (keys acc))
unfolding load_model contains
load_model-keys ig md [] acc x = refl
load_model-keys ig md (id ∷ es) acc x =
    load_model-keys ig md es _ x
    ∙ ground
        (arith, ==_iff id x, contains-keys-insert x id (or_else (lookup id acc) [] ++ md ∷ []) acc)

load_model-size :
    (ig : List (String × Bool)) (md : Model) (es : List String) (acc : List (String × List Model))
    (x : String)
    → Distinct es
    → ignored ig x ≡ false
    → size_of (load_model ig md es acc) x ≡ (if contains x es then 1 else 0) + size_of acc x
unfolding load_model contains
load_model-size ig md [] acc x h n = omega arith
load_model-size ig md (id ∷ es) acc x h n =
    load_model-size ig md es _ x h.1 n
    ∙ ground (
      arith,
      ==_iff id x,
      lookup-insert x id (or_else (lookup id acc) [] ++ md ∷ []) acc,
      length-append (or_else (lookup id acc) []) (md ∷ []),
    )

-- Every set of engines in the table holds each engine once.
abbrev pub SetsDistinct : List (Model × List String) → Type 0
SetsDistinct [] = Unit {0}
SetsDistinct ((md, es) ∷ m) = Distinct es × SetsDistinct m

pub load_models-size :
    (ig : List (String × Bool)) (m : List (Model × List String)) (acc : List (String × List Model))
    (x : String)
    → SetsDistinct m
    → ignored ig x ≡ false
    → size_of (load_models ig m acc) x ≡ load m x + size_of acc x
unfolding load_models
load_models-size ig [] acc x h n = omega arith
load_models-size ig ((md, es) ∷ m) acc x h n = omega (
  arith,
  load_models-size ig m (load_model ig md es acc) x h.1 n,
  load_model-size ig md es acc x h.0 n,
)

abbrev pub served_by : List (Model × List String) → String → Bool
served_by [] x = false
served_by ((md, es) ∷ m) x = contains x es || served_by m x

load_models-keys :
    (ig : List (String × Bool)) (m : List (Model × List String)) (acc : List (String × List Model))
    (x : String)
    → contains x (keys (load_models ig m acc))
      ≡ ((served_by m x && not (ignored ig x)) || contains x (keys acc))
unfolding load_models
load_models-keys ig [] acc x = refl
load_models-keys ig ((md, es) ∷ m) acc x =
    load_models-keys ig m (load_model ig md es acc) x
    ∙ ground (arith, load_model-keys ig md es acc x)

-- Every engine on a route is a known engine.
abbrev pub RoutesKnown : RouteMap → Type 0
RoutesKnown r = (x : String) → served_by r.m x ≡ true → contains x r.engines ≡ true

-- The engines that the choice is made from.
abbrev pub eligible : RouteMap → List (String × Bool) → String → Bool
eligible r ig x = contains x r.engines && not (ignored ig x)

-- The map that the last loop ranges over.
abbrev pub counted : RouteMap → List (String × Bool) → List (String × List Model)
counted r ig = load_models ig r.m (candidates ig r.engines [])

pub counted-keys :
    (r : RouteMap) (ig : List (String × Bool)) (x : String)
    → RoutesKnown r
    → contains x (keys (counted r ig)) ≡ eligible r ig x
unfolding contains
counted-keys r ig x known = ground (
  arith,
  known x,
  load_models-keys ig r.m (candidates ig r.engines []) x,
  candidates-keys ig r.engines [] x,
)

pub counted-size :
    (r : RouteMap) (ig : List (String × Bool)) (x : String)
    → SetsDistinct r.m
    → ignored ig x ≡ false
    → size_of (counted r ig) x ≡ load r.m x
unfolding lookup
counted-size r ig x d n = omega (
  arith,
  load_models-size ig r.m (candidates ig r.engines []) x d n,
  candidates-size ig r.engines [] x (refl),
)

pub counted-Distinct : (r : RouteMap) (ig : List (String × Bool)) → Distinct (keys (counted r ig))
counted-Distinct r ig = load_models-Distinct ig r.m _ (candidates-Distinct ig r.engines [] tt)
