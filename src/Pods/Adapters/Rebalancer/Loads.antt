-- ===== src/Pods/Adapters/Rebalancer/Loads.antt =====
-- Which adapters the rebalancer loads where.
use inference_manager.Base.{
  ==_iff, Bool, Distinct, Distinct-insert, List, Option, String, [], add, ap, arith, contains,
  contains-add, contains-keys-insert, false, if◌then◌else◌, insert, keys, lookup, lookup-insert,
  nat_eq, none, not, or_else, refl, some, string_eq, ◌&&◌, ◌++◌, ◌==◌, ◌||◌, ◌∙◌, ◌∷◌, ◌≡◌,
}
use inference_manager.Pods.Adapters.{AdapterStatus, PodStatus}
use inference_manager.Pods.Adapters.Reconciler.{ids_of}
use inference_manager.Pods.Adapters.Rebalancer.{
  group_by_adapter, loads_for, loads_of, names_of, note_adapters, rebalance,
}
use inference_manager.Router.RouteMap.{model_eq}
use inference_manager.Router.Tenants.{names}

abbrev Groups : Type 0
Groups = List (String × List String)

abbrev pub has_load : String → String → List (String × String) → Bool
has_load id name [] = false
has_load id name (x ∷ xs) = x.0 == id && x.1 == name || has_load id name xs

has_load-append :
    (id name : String) (xs ys : List (String × String))
    → has_load id name (xs ++ ys) ≡ (has_load id name xs || has_load id name ys)
has_load-append id name [] ys = refl
has_load-append id name (x ∷ xs) ys = ground (arith, has_load-append id name xs ys)

has_load-loads_for :
    (id name i : String) (having names : List String)
    → has_load id name (loads_for i having names)
      ≡ (i == id && contains name names && not (contains name having))
unfolding loads_for contains
has_load-loads_for id name i having [] = ground arith
has_load-loads_for id name i having (x ∷ names) =
    ground (arith, has_load-loads_for id name i having names, ==_iff x name)

abbrev in_group : String → String → Groups → Bool
in_group id name m = contains name (or_else (lookup id m) [])

has_load-absent :
    (id name : String) (m : Groups) (names : List String)
    → contains id (keys m) ≡ false
    → has_load id name (loads_of m names) ≡ false
unfolding loads_of contains
has_load-absent id name [] names h = refl
has_load-absent id name ((i, having) ∷ m) names h = ground (
  arith,
  has_load-append id name (loads_for i having names) (loads_of m names),
  has_load-loads_for id name i having names,
  has_load-absent id name m names,
)

has_load-loads_of :
    (id name : String) (m : Groups) (names : List String)
    → Distinct (keys m)
    → has_load id name (loads_of m names)
      ≡ (contains id (keys m) && contains name names && not (in_group id name m))
unfolding loads_of lookup contains
has_load-loads_of id name [] names d = refl
has_load-loads_of id name ((i, having) ∷ m) names (out, d) = ground (
  arith,
  has_load-append id name (loads_for i having names) (loads_of m names),
  has_load-loads_for id name i having names,
  has_load-loads_of id name m names d,
  has_load-absent id name m names,
  ==_iff i id,
)

-- What a pod adds to the groups.
contains-note_adapters :
    (id : String) (name : String) (ids : List String) (m : Groups)
    → contains id (keys (note_adapters name ids m)) ≡ (contains id (keys m) || contains id ids)
unfolding note_adapters contains
contains-note_adapters id name [] m = ground arith
contains-note_adapters id name (x ∷ ids) m =
    let group = add name (or_else (lookup x m) []) in
    ground (
      arith,
      contains-note_adapters id name ids (insert x group m),
      contains-keys-insert id x group m,
    )

in_group-note_adapters :
    (id other name : String) (ids : List String) (m : Groups)
    → in_group id other (note_adapters name ids m)
      ≡ (in_group id other m || name == other && contains id ids)
unfolding note_adapters contains
in_group-note_adapters id other name [] m = ground arith
in_group-note_adapters id other name (x ∷ ids) m =
    let group = add name (or_else (lookup x m) []) in
    let next : in_group id other (insert x group m)
        ≡ (if x == id then contains other group else in_group id other m) =
      ap (λ o. contains other (or_else o [])) (lookup-insert id x group m) ∙ ground (arith) in
    ground (
      arith,
      in_group-note_adapters id other name ids (insert x group m),
      next,
      ==_iff x id,
      contains-add other name (or_else (lookup x m) []),
    )

Distinct-note_adapters :
    (name : String) (ids : List String) (m : Groups)
    → Distinct (keys m)
    → Distinct (keys (note_adapters name ids m))
unfolding note_adapters
Distinct-note_adapters name [] m d = d
Distinct-note_adapters name (x ∷ ids) m d =
    let group = add name (or_else (lookup x m) []) in
    Distinct-note_adapters name ids (insert x group m) (Distinct-insert x group m d)

abbrev pub has_adapter : String → Option AdapterStatus → Bool
has_adapter id none = false
has_adapter id (some l) = contains id l.adapter_ids

contains-ids_of :
    (id : String) (o : Option AdapterStatus) → contains id (ids_of o) ≡ has_adapter id o
unfolding contains
contains-ids_of id none = refl
contains-ids_of id (some l) = refl

-- Some pod has the adapter; a pod of a name has it; there is a pod of a name.
abbrev pub any_has : String → List PodStatus → Bool
any_has id [] = false
any_has id (s ∷ ss) = has_adapter id s.lstatus || any_has id ss

abbrev pub pod_has : String → String → List PodStatus → Bool
pod_has id name [] = false
pod_has id name (s ∷ ss) = s.pod.name == name && has_adapter id s.lstatus || pod_has id name ss

abbrev pub any_named : String → List PodStatus → Bool
any_named name [] = false
any_named name (s ∷ ss) = s.pod.name == name || any_named name ss

contains-names_of :
    (name : String) (ss : List PodStatus) → contains name (names_of ss) ≡ any_named name ss
unfolding names_of contains
contains-names_of name [] = refl
contains-names_of name (s ∷ ss) =
    ground (arith, contains-add name s.pod.name (names_of ss), contains-names_of name ss)

contains-group :
    (id : String) (ss : List PodStatus) (m : Groups)
    → contains id (keys (group_by_adapter ss m)) ≡ (contains id (keys m) || any_has id ss)
unfolding group_by_adapter
contains-group id [] m = ground arith
contains-group id (s ∷ ss) m = ground (
  arith,
  contains-group id ss (note_adapters s.pod.name (ids_of s.lstatus) m),
  contains-ids_of id s.lstatus,
  contains-note_adapters id s.pod.name (ids_of s.lstatus) m,
)

in_group-group :
    (id name : String) (ss : List PodStatus) (m : Groups)
    → in_group id name (group_by_adapter ss m) ≡ (in_group id name m || pod_has id name ss)
unfolding group_by_adapter
in_group-group id name [] m = ground arith
in_group-group id name (s ∷ ss) m = ground (
  arith,
  in_group-group id name ss (note_adapters s.pod.name (ids_of s.lstatus) m),
  contains-ids_of id s.lstatus,
  in_group-note_adapters id name s.pod.name (ids_of s.lstatus) m,
)

Distinct-group :
    (ss : List PodStatus) (m : Groups) → Distinct (keys m) → Distinct (keys (group_by_adapter ss m))
unfolding group_by_adapter
Distinct-group [] m d = d
Distinct-group (s ∷ ss) m d =
    Distinct-group ss (note_adapters s.pod.name (ids_of s.lstatus) m)
      (Distinct-note_adapters s.pod.name (ids_of s.lstatus) m d)

-- An adapter is loaded in a pod exactly where some pod has the adapter, there is a status for a
-- pod of this name, and no pod of this name has the adapter.
pub rebalance-loads :
    (id name : String) (ss : List PodStatus)
    → has_load id name (rebalance ss)
      ≡ (any_has id ss && any_named name ss && not (pod_has id name ss))
unfolding rebalance lookup contains
rebalance-loads id name ss = ground (
  arith,
  has_load-loads_of id name (group_by_adapter ss []) (names_of ss) (Distinct-group ss [] tt),
  contains-group id ss [],
  in_group-group id name ss [],
  contains-names_of name ss,
)
