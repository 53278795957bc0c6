-- ===== src/Router/Table.antt =====
-- The routing table as a specification: two relations, with no order and no representation.
use inference_manager.Base.{
  ==_iff, Bool, List, Option-cases, String, [], add, ap, arith, contains, contains-add,
  contains-remove, false, if◌then◌else◌, inl, inr, lookup, lookup-insert, lookup-map_values,
  map_values, nat_eq, not, or_else, refl, remove, string_eq, subst, sym, true, ◌&&◌, ◌==◌, ◌||◌,
  ◌∙◌, ◌∷◌, ◌≡◌,
}
use inference_manager.Router.RouteMap.{
  Model, RouteMap, add_or_update_engine, add_route, delete_engine, delete_route, get_route,
  model_eq, new_route_map, serve, serve_all,
}

pub record Table : Type 0 where
  pub known : String → Bool
  pub serves : Model → String → Bool

abbrev pub served : List (Model × List String) → Model → String → Bool
served m md e = contains e (or_else (lookup md m) [])

abbrev pub view : RouteMap → Table
view r = record { known = λ e. contains e r.engines; serves = λ d e. contains e (get_route r d) }

-- The operations on a routing table, as the specification sees them.
pub data Op : Type 0 where
  adds_route : Model → String → Op
  deletes_route : Model → String → Op
  updates_engine : String → List String → Op
  deletes_engine : String → Op

unfoldable pub apply : Op → RouteMap → RouteMap
apply (adds_route md e) r = add_route r md e
apply (deletes_route md e) r = delete_route r md e
apply (updates_engine e ids) r = add_or_update_engine r e ids
apply (deletes_engine e) r = delete_engine r e

abbrev pub specified : Op → Table → Table
specified (adds_route md e) t = record {
  known = λ x. e == x || t.known x;
  serves = λ d x. (md == d && e == x) || t.serves d x;
}
specified (deletes_route md e) t = record {
  known = t.known;
  serves = λ d x. not (md == d && e == x) && t.serves d x;
}
specified (updates_engine e ids) t = record {
  known = λ x. e == x || t.known x;
  serves = λ d x. if e == x then contains d.id ids else t.serves d x;
}
specified (deletes_engine e) t = record {
  known = λ x. not (e == x) && t.known x;
  serves = λ d x. not (e == x) && t.serves d x;
}

served-serve :
    (e : String) (m : List (Model × List String)) (md d : Model) (x : String)
    → served (serve e m md) d x ≡ ((md == d && e == x) || served m d x)
unfolding serve
served-serve e m md d x =
    rw (lookup-insert d md (add e (or_else (lookup md m) [])) m)
      (ground (arith, ==_iff md d, contains-add x e (or_else (lookup md m) [])))

served-remove :
    (e : String) (m : List (Model × List String)) (d : Model) (x : String)
    → served (map_values (remove e) m) d x ≡ (not (e == x) && served m d x)
unfolding contains
served-remove e m d x = rw (lookup-map_values (remove e) d m) (elim (Option-cases (lookup d m)) [
  | inl h ↦ rw h (ground arith)
  | inr (es, h) ↦ rw h (contains-remove x e es)
])

served-serve_all :
    (e : String) (ids : List String) (m : List (Model × List String)) (d : Model) (x : String)
    → served (serve_all e m ids) d x ≡ ((contains d.id ids && e == x) || served m d x)
unfolding serve_all contains
served-serve_all e [] m d x = refl
served-serve_all e (id ∷ ids) m d x =
    served-serve_all e ids (serve e m (record { id = id })) d x
    ∙ ground (arith, served-serve e m (record { id = id }) d x)

served-delete_route :
    (md : Model) (e : String) (r : RouteMap) (d : Model) (x : String)
    → served (delete_route r md e).m d x ≡ (not (md == d && e == x) && served r.m d x)
unfolding delete_route contains
served-delete_route md e r d x = elim (Option-cases (lookup md r.m)) [
  | inl h ↦ rw (h, delete_route) (ground (arith, ==_iff md d))
  | inr (es, h) ↦
      rw (h, delete_route)
        (rw (lookup-insert d md (remove e es) r.m)
          (ground (arith, ==_iff md d, contains-remove x e es)))
]

served-update :
    (e : String) (ids : List String) (m : List (Model × List String)) (d : Model) (x : String)
    → served (serve_all e (map_values (remove e) m) ids) d x
      ≡ (if e == x then contains d.id ids else served m d x)
served-update e ids m d x =
    ground (arith, served-serve_all e ids (map_values (remove e) m) d x, served-remove e m d x)

Table-path :
    (t u : Table)
    → ((x : String) → t.known x ≡ u.known x)
    → ((d : Model) (x : String) → t.serves d x ≡ u.serves d x)
    → t ≡ u
Table-path t u p q = λ i. record { known = λ x. p x i; serves = λ d x. q d x i }

known-delete_route :
    (md : Model) (e : String) (r : RouteMap) → (delete_route r md e).engines ≡ r.engines
unfolding delete_route
known-delete_route md e r = ground arith

-- Each operation of the table does to the two relations exactly what the specification says.
pub apply-specified : (op : Op) (r : RouteMap) → view (apply op r) ≡ specified op (view r)
unfolding apply add_route add_or_update_engine delete_engine get_route
apply-specified (adds_route md e) r =
    Table-path _ _ (λ x. contains-add x e r.engines) (served-serve e r.m md)
apply-specified (deletes_route md e) r =
    Table-path _ _ (λ x. rw (known-delete_route md e r)) (served-delete_route md e r)
apply-specified (updates_engine e ids) r =
    Table-path _ _ (λ x. contains-add x e r.engines) (served-update e ids r.m)
apply-specified (deletes_engine e) r =
    Table-path _ _ (λ x. contains-remove x e r.engines) (served-remove e r.m)

pub apply_all : List Op → RouteMap → RouteMap
apply_all [] r = r
apply_all (op ∷ ops) r = apply_all ops (apply op r)

pub specified_all : List Op → Table → Table
specified_all [] t = t
specified_all (op ∷ ops) t = specified_all ops (specified op t)

abbrev pub empty_table : Table
empty_table = record { known = λ x. false; serves = λ d x. false }

apply_all-specified_all :
    (ops : List Op) (r : RouteMap) → view (apply_all ops r) ≡ specified_all ops (view r)
unfolding apply_all specified_all
apply_all-specified_all [] r = refl
apply_all-specified_all (op ∷ ops) r =
    apply_all-specified_all ops (apply op r) ∙ ap (specified_all ops) (apply-specified op r)

-- Over any history of operations from the empty table, the association lists hold the two
-- relations that the specification computes: the known engines, and the engines that serve each
-- model.
pub history-specified :
    (ops : List Op) → view (apply_all ops new_route_map) ≡ specified_all ops empty_table
unfolding new_route_map contains lookup get_route
history-specified ops = apply_all-specified_all ops new_route_map ∙ ap (specified_all ops) refl

-- An engine that serves some model is a known engine.
abbrev pub AllKnown : Table → Type 0
AllKnown t = (d : Model) (x : String) → t.serves d x ≡ true → t.known x ≡ true

specified-AllKnown : (op : Op) (t : Table) → AllKnown t → AllKnown (specified op t)
specified-AllKnown (adds_route md e) t h d x s = ground (arith, h d x)
specified-AllKnown (deletes_route md e) t h d x s = ground (arith, h d x)
specified-AllKnown (updates_engine e ids) t h d x s = ground (arith, h d x)
specified-AllKnown (deletes_engine e) t h d x s = ground (arith, h d x)

specified_all-AllKnown : (ops : List Op) (t : Table) → AllKnown t → AllKnown (specified_all ops t)
unfolding specified_all
specified_all-AllKnown [] t h = h
specified_all-AllKnown (op ∷ ops) t h =
    specified_all-AllKnown ops (specified op t) (specified-AllKnown op t h)

-- After any history from the empty table, an engine on a route is a known engine.
pub history-AllKnown : (ops : List Op) → AllKnown (view (apply_all ops new_route_map))
history-AllKnown ops =
    subst AllKnown (sym (history-specified ops))
      (specified_all-AllKnown ops empty_table (λ d x h. h))

pub apply_update-specified :
    (e : String) (ids : List String) (r : RouteMap)
    → view (add_or_update_engine r e ids) ≡ specified (updates_engine e ids) (view r)
unfolding apply
apply_update-specified e ids r = apply-specified (updates_engine e ids) r
