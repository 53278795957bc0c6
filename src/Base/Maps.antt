-- ===== src/Base/Maps.antt =====
-- Go maps as association lists and Go sets (maps to `struct{}`) as lists of keys. A range over a
-- map visits the entries in the order of its list; Go leaves the order open, and theorems hold for
-- every list.
use mathlib.Core.Path.{◌≡◌, refl}
use mathlib.Core.Bool.{Bool, true, false, ◌&&◌, ◌||◌, not}
use mathlib.Core.List.{List, [], ◌∷◌, map}
use mathlib.Core.Option.{Option, none, some}
use native.Mathlib.Omega.{arith}
use inference_manager.Base.Tests.{Eq, ◌==◌, ==_iff, ==_refl, if◌then◌else◌}

module _ {ℓ} {K : Type ℓ} ⦃e : Eq K⦄ where
  unfoldable pub contains : K → List K → Bool
  contains k [] = false
  contains k (x ∷ xs) = x == k || contains k xs

  -- `s[k] = struct{}{}`.
  unfoldable pub add : K → List K → List K
  add k [] = k ∷ []
  add k (x ∷ xs) = if x == k then x ∷ xs else x ∷ add k xs

  -- `delete(s, k)`.
  unfoldable pub remove : K → List K → List K
  remove k [] = []
  remove k (x ∷ xs) = let rest = remove k xs in if x == k then rest else x ∷ rest

  pub contains-add : (j k : K) (xs : List K) → contains j (add k xs) ≡ (k == j || contains j xs)
  unfolding contains add
  contains-add j k [] = refl
  contains-add j k (x ∷ xs) =
      ground (arith, ==_iff x k, ==_iff x j, ==_iff k j, contains-add j k xs)

  pub contains-remove :
      (j k : K) (xs : List K) → contains j (remove k xs) ≡ (not (k == j) && contains j xs)
  unfolding contains remove
  contains-remove j k [] = ground arith
  contains-remove j k (x ∷ xs) =
      ground (arith, ==_iff x k, ==_iff x j, ==_iff k j, contains-remove j k xs)

  -- Keys occur once, as in a Go map.
  abbrev pub Distinct : List K → Type 0
  Distinct [] = Unit {0}
  Distinct (x ∷ xs) = (contains x xs ≡ false) × Distinct xs

module _ {ℓ κ} {K : Type ℓ} {V : Type κ} ⦃e : Eq K⦄ where
  -- `m[k]`.
  unfoldable pub lookup : K → List (K × V) → Option V
  lookup k [] = none
  lookup k ((j, v) ∷ m) = if j == k then some v else lookup k m

  -- `m[k] = v`.
  unfoldable pub insert : K → V → List (K × V) → List (K × V)
  insert k v [] = (k, v) ∷ []
  insert k v ((j, w) ∷ m) = if j == k then (j, v) ∷ m else (j, w) ∷ insert k v m

  -- `delete(m, k)`.
  unfoldable pub delete : K → List (K × V) → List (K × V)
  delete k [] = []
  delete k ((j, w) ∷ m) = let rest = delete k m in if j == k then rest else (j, w) ∷ rest

  pub lookup-insert :
      (j k : K) (v : V) (m : List (K × V))
      → lookup j (insert k v m) ≡ (if k == j then some v else lookup j m)
  unfolding lookup insert
  lookup-insert j k v [] = refl
  lookup-insert j k v ((i, w) ∷ m) =
      ground (arith, ==_iff i k, ==_iff i j, ==_iff k j, lookup-insert j k v m)

  pub lookup-insert_self : (k : K) (v : V) (m : List (K × V)) → lookup k (insert k v m) ≡ some v
  lookup-insert_self k v m = rw (lookup-insert k k v m, ==_refl k)

  pub lookup-delete :
      (j k : K) (m : List (K × V)) → lookup j (delete k m) ≡ (if k == j then none else lookup j m)
  unfolding lookup delete
  lookup-delete j k [] = ground arith
  lookup-delete j k ((i, w) ∷ m) =
      ground (arith, ==_iff i k, ==_iff i j, ==_iff k j, lookup-delete j k m)

  abbrev pub keys : List (K × V) → List K
  keys = map (λ p. p.0)

  pub contains-keys :
      (k : K) (m : List (K × V))
      → contains k (keys m) ≡ (elim (lookup k m) [ none ↦ false | some _ ↦ true ])
  unfolding lookup contains
  contains-keys k [] = refl
  contains-keys k ((j, v) ∷ m) = ground (arith, contains-keys k m)

  pub contains-keys-insert :
      (j k : K) (v : V) (m : List (K × V))
      → contains j (keys (insert k v m)) ≡ (k == j || contains j (keys m))
  unfolding contains insert
  contains-keys-insert j k v [] = refl
  contains-keys-insert j k v ((i, w) ∷ m) =
      ground (arith, ==_iff i k, ==_iff i j, ==_iff k j, contains-keys-insert j k v m)

  -- A change of every value in place, as in a range that writes through its values.
  abbrev pub map_values : (V → V) → List (K × V) → List (K × V)
  map_values f [] = []
  map_values f ((j, v) ∷ m) = (j, f v) ∷ map_values f m

  pub lookup-map_values :
      (f : V → V) (k : K) (m : List (K × V))
      → lookup k (map_values f m) ≡ (elim (lookup k m) [ none ↦ none | some v ↦ some (f v) ])
  unfolding lookup
  lookup-map_values f k [] = refl
  lookup-map_values f k ((j, v) ∷ m) = ground (arith, lookup-map_values f k m)

  pub Distinct-insert :
      (k : K) (v : V) (m : List (K × V)) → Distinct (keys m) → Distinct (keys (insert k v m))
  unfolding insert contains
  Distinct-insert k v [] h = (refl, tt)
  Distinct-insert k v ((j, w) ∷ m) h =
      ground
        (arith, ==_iff j k, ==_iff k j, contains-keys-insert j k v m, Distinct-insert k v m h.1)

  pub contains-keys-delete :
      (j k : K) (m : List (K × V))
      → contains j (keys (delete k m)) ≡ (not (k == j) && contains j (keys m))
  unfolding contains delete
  contains-keys-delete j k [] = ground arith
  contains-keys-delete j k ((i, w) ∷ m) =
      ground (arith, ==_iff i k, ==_iff i j, ==_iff k j, contains-keys-delete j k m)

  pub Distinct-delete :
      (k : K) (m : List (K × V)) → Distinct (keys m) → Distinct (keys (delete k m))
  unfolding delete
  Distinct-delete k [] h = tt
  Distinct-delete k ((j, w) ∷ m) h =
      ground (arith, contains-keys-delete j k m, Distinct-delete k m h.1)
