-- ===== src/Router/Valid.antt =====
-- The invariant of a routing table, and that every operation keeps it.
use inference_manager.Base.{
  ==_iff, Distinct, List, Option-cases, String, [], add, arith, contains, contains-add,
  contains-remove, inl, inr, insert, lookup, map_values, nat_eq, not, or_else, refl, remove,
  string_eq, true, ◌&&◌, ◌==◌, ◌||◌, ◌∷◌, ◌≡◌,
}
use inference_manager.Router.RouteMap.{
  Model, RouteMap, add_or_update_engine, add_route, delete_engine, delete_route, model_eq,
  new_route_map, serve, serve_all,
}
use inference_manager.Router.Load.{RoutesKnown, SetsDistinct, served_by}
use inference_manager.Router.Table.{
  Op, adds_route, apply, deletes_engine, deletes_route, updates_engine,
}

pub record IsValid (r : RouteMap) : Type 0 where
  pub known : RoutesKnown r
  pub sets : SetsDistinct r.m

Distinct-add : (k : String) (xs : List String) → Distinct xs → Distinct (add k xs)
unfolding add contains
Distinct-add k [] h = (refl, tt)
Distinct-add k (x ∷ xs) h =
    ground (arith, ==_iff x k, ==_iff k x, contains-add x k xs, Distinct-add k xs h.1)

Distinct-remove : (k : String) (xs : List String) → Distinct xs → Distinct (remove k xs)
unfolding remove contains
Distinct-remove k [] h = tt
Distinct-remove k (x ∷ xs) h = ground (arith, contains-remove x k xs, Distinct-remove k xs h.1)

SetsDistinct-insert :
    (md : Model) (es : List String) (m : List (Model × List String))
    → Distinct es
    → SetsDistinct m
    → SetsDistinct (insert md es m)
unfolding insert
SetsDistinct-insert md es [] d h = (d, tt)
SetsDistinct-insert md es ((j, w) ∷ m) d h = ground (arith, SetsDistinct-insert md es m d h.1)

Distinct-route :
    (md : Model) (m : List (Model × List String))
    → SetsDistinct m
    → Distinct (or_else (lookup md m) [])
unfolding lookup
Distinct-route md [] h = tt
Distinct-route md ((j, w) ∷ m) h = ground (arith, Distinct-route md m h.1)

SetsDistinct-remove :
    (e : String) (m : List (Model × List String))
    → SetsDistinct m
    → SetsDistinct (map_values (remove e) m)
SetsDistinct-remove e [] h = tt
SetsDistinct-remove e ((j, w) ∷ m) h = (Distinct-remove e w h.0, SetsDistinct-remove e m h.1)

served_by-insert :
    (md : Model) (es : List String) (m : List (Model × List String)) (x : String)
    → served_by (insert md es m) x ≡ true
    → (contains x es || served_by m x) ≡ true
unfolding insert
served_by-insert md es [] x h = h
served_by-insert md es ((j, w) ∷ m) x h = ground (arith, served_by-insert md es m x)

pub served_by-route :
    (md : Model) (m : List (Model × List String)) (x : String)
    → contains x (or_else (lookup md m) []) ≡ true
    → served_by m x ≡ true
unfolding lookup contains
served_by-route md [] x h = cc
served_by-route md ((j, w) ∷ m) x h = ground (arith, served_by-route md m x)

served_by-remove :
    (e : String) (m : List (Model × List String)) (x : String)
    → served_by (map_values (remove e) m) x ≡ (not (e == x) && served_by m x)
served_by-remove e [] x = ground arith
served_by-remove e ((j, w) ∷ m) x = ground (arith, contains-remove x e w, served_by-remove e m x)

SetsDistinct-serve :
    (e : String) (m : List (Model × List String)) (md : Model)
    → SetsDistinct m
    → SetsDistinct (serve e m md)
unfolding serve
SetsDistinct-serve e m md h =
    SetsDistinct-insert md _ m (Distinct-add e _ (Distinct-route md m h)) h

served_by-serve :
    (e : String) (m : List (Model × List String)) (md : Model) (x : String)
    → served_by (serve e m md) x ≡ true
    → (e == x || served_by m x) ≡ true
unfolding serve
served_by-serve e m md x h = ground (
  arith,
  served_by-insert md (add e (or_else (lookup md m) [])) m x h,
  contains-add x e (or_else (lookup md m) []),
  served_by-route md m x,
)

SetsDistinct-serve_all :
    (e : String) (ids : List String) (m : List (Model × List String))
    → SetsDistinct m
    → SetsDistinct (serve_all e m ids)
unfolding serve_all
SetsDistinct-serve_all e [] m h = h
SetsDistinct-serve_all e (id ∷ ids) m h =
    SetsDistinct-serve_all e ids _ (SetsDistinct-serve e m (record { id = id }) h)

served_by-serve_all :
    (e : String) (ids : List String) (m : List (Model × List String)) (x : String)
    → served_by (serve_all e m ids) x ≡ true
    → (e == x || served_by m x) ≡ true
unfolding serve_all
served_by-serve_all e [] m x h = ground arith
served_by-serve_all e (id ∷ ids) m x h = ground (
  arith,
  served_by-serve_all e ids (serve e m (record { id = id })) x h,
  served_by-serve e m (record { id = id }) x,
)

add_route-IsValid :
    (md : Model) (e : String) (r : RouteMap) → IsValid r → IsValid (add_route r md e)
unfolding add_route
add_route-IsValid md e r v = record {
  known =
      λ x h. ground (arith, served_by-serve e r.m md x h, contains-add x e r.engines, v.known x);
  sets = SetsDistinct-serve e r.m md v.sets;
}

delete_route-IsValid :
    (md : Model) (e : String) (r : RouteMap) → IsValid r → IsValid (delete_route r md e)
unfolding delete_route
delete_route-IsValid md e r v = elim (Option-cases (lookup md r.m)) [
  | inl h ↦ rw (h, delete_route) v
  | inr (es, h) ↦
      rw (h, delete_route)
        (record {
          known = λ x s. v.known x (
              ground (
                arith,
                served_by-insert md (remove e es) r.m x s,
                contains-remove x e es,
                served_by-route md r.m x,
              ));
          sets =
              SetsDistinct-insert md _ r.m
                (Distinct-remove e es (ground (arith, Distinct-route md r.m v.sets))) v.sets;
        })
]

pub update-IsValid :
    (e : String) (ids : List String) (r : RouteMap)
    → IsValid r
    → IsValid (add_or_update_engine r e ids)
unfolding add_or_update_engine
update-IsValid e ids r v = record {
  known = λ x h. ground (
    arith,
    served_by-serve_all e ids (map_values (remove e) r.m) x h,
    served_by-remove e r.m x,
    contains-add x e r.engines,
    v.known x,
  );
  sets = SetsDistinct-serve_all e ids _ (SetsDistinct-remove e r.m v.sets);
}

pub delete_engine-IsValid : (e : String) (r : RouteMap) → IsValid r → IsValid (delete_engine r e)
unfolding delete_engine
delete_engine-IsValid e r v = record {
  known =
      λ x h. ground (arith, h, served_by-remove e r.m x, contains-remove x e r.engines, v.known x);
  sets = SetsDistinct-remove e r.m v.sets;
}

-- Every operation on a routing table keeps its invariant: the engines on the routes are known, and
-- each set of engines holds an engine once.
pub apply-IsValid : (op : Op) (r : RouteMap) → IsValid r → IsValid (apply op r)
unfolding apply
apply-IsValid (adds_route md e) r v = add_route-IsValid md e r v
apply-IsValid (deletes_route md e) r v = delete_route-IsValid md e r v
apply-IsValid (updates_engine e ids) r v = update-IsValid e ids r v
apply-IsValid (deletes_engine e) r v = delete_engine-IsValid e r v

pub new_route_map-IsValid : IsValid new_route_map
unfolding new_route_map
new_route_map-IsValid = record { known = λ x h. cc; sets = tt }
