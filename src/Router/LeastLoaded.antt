-- ===== src/Router/LeastLoaded.antt =====
-- `findLeastLoadedEngine` returns a least loaded engine among those that are not ignored.
use inference_manager.Base.{
  ==_iff, ==_refl, Bool, Bool-cases, Distinct, List, String, [], arith, contains, false, inl, inr,
  keys, length, lookup, min, nat_eq, none, refl, some, string_eq, sym, true, ℕ, ◌==◌, ◌↔◌, ◌∙◌, ◌∷◌,
  ◌≡◌, ◌≢◌, ◌≤◌, ◌⊎◌,
}
use inference_manager.Router.RouteMap.{
  Model, RouteMap, candidates, find_least_loaded_engine, ignored, is_empty, model_eq, pick_min,
}
use inference_manager.Router.Load.{
  RoutesKnown, SetsDistinct, candidates-keys, counted, counted-Distinct, counted-keys, counted-size,
  eligible, load, size_of,
}
use inference_manager.Infprocessor.Schedule.{found}

-- The entries agree with a size for each engine.
abbrev Sized : (String → ℕ) → List (String × List Model) → Type 0
Sized size [] = Unit {0}
Sized size ((k, v) ∷ l) = (length v ≡ size k) × Sized size l

Sized-ext :
    (f g : String → ℕ) (l : List (String × List Model))
    → ((x : String) → contains x (keys l) ≡ true → f x ≡ g x)
    → Sized f l
    → Sized g l
unfolding contains
Sized-ext f g [] h s = tt
Sized-ext f g ((k, v) ∷ l) h s =
    (ground (arith, h k, ==_refl k), Sized-ext f g l (λ x c. h x (ground (arith, c))) s.1)

size_of-Sized : (l : List (String × List Model)) → Distinct (keys l) → Sized (size_of l) l
unfolding lookup
size_of-Sized [] h = tt
size_of-Sized ((k, v) ∷ l) h = (
  ground (arith, ==_refl k),
  Sized-ext (size_of l) (size_of ((k, v) ∷ l)) l (λ x c. ground (arith, ==_iff k x))
      (size_of-Sized l h.1),
)

abbrev Least : (String → ℕ) → List (String × List Model) → String → String → Type 0
Least size l id r =
    (id == "" ≡ false → size r ≤ size id)
    × ((x : String) → contains x (keys l) ≡ true → size r ≤ size x)
    × ((contains r (keys l) ≡ true) ⊎ ((r ≡ id) × ((id == "" ≡ true) → l ≡ [])))

-- The loop's answer is least among the entries seen and to come.
pick_min-Least :
    (size : String → ℕ) (l : List (String × List Model)) (min : ℕ) (id : String)
    → Sized size l
    → contains "" (keys l) ≡ false
    → (id == "" ≡ false → min ≡ size id)
    → Least size l id (pick_min min id l)
unfolding pick_min contains
pick_min-Least size [] min id h e m = (λ n. omega arith, λ x c. cc, inr (refl, λ n. refl))
pick_min-Least size ((k, v) ∷ l) min id h e m =
    let taken = pick_min-Least size l (length v) k h.1 (ground arith) (λ n. h.0) in
    let kept = pick_min-Least size l min id h.1 (ground arith) m in
    (
      λ n. ground (arith, m n, taken, kept),
      λ x c. ground (arith, m, taken.0, kept.0, taken.1 x, kept.1 x, ==_iff k x),
      ground (arith, taken.2, kept.2, ==_iff k (pick_min min id l), ==_refl k),
    )

-- No engine has the empty ID, by which the loop says "none yet".
abbrev pub Named : RouteMap → Type 0
Named r = contains "" r.engines ≡ false

has_key :
    (m : List (String × List Model))
    → is_empty m ≡ false
    → (y : String) × (contains y (keys m) ≡ true)
unfolding contains
has_key [] h = absurd (cc h)
has_key ((k, v) ∷ m) h = (k, ground (arith, ==_refl k))

abbrev start : RouteMap → List (String × Bool) → List (String × List Model)
start r ig = candidates ig r.engines []

start-keys :
    (r : RouteMap) (ig : List (String × Bool)) (y : String)
    → contains y (keys (start r ig)) ≡ eligible r ig y
unfolding contains
start-keys r ig y = ground (arith, candidates-keys ig r.engines [] y)

found_some :
    (r : RouteMap) (ig : List (String × Bool)) {x : String}
    → find_least_loaded_engine r ig ≡ some x
    → (is_empty (start r ig) ≡ false) × (x ≡ pick_min 0 "" (counted r ig))
unfolding find_least_loaded_engine
found_some r ig h = ground arith

counted-ne-nil :
    (r : RouteMap) (ig : List (String × Bool))
    → RoutesKnown r
    → is_empty (start r ig) ≡ false
    → counted r ig ≢ []
unfolding contains
counted-ne-nil r ig known h e =
    let (y, k) = has_key (start r ig) h in
    let both : contains y (keys (counted r ig)) ≡ true =
      counted-keys r ig y known ∙ (sym (start-keys r ig y) ∙ k) in
    cc both

eligible_not_ignored :
    (r : RouteMap) (ig : List (String × Bool)) (x : String)
    → eligible r ig x ≡ true
    → ignored ig x ≡ false
eligible_not_ignored r ig x h = ground arith

-- Where the engines on the routes are known, each set of engines holds an engine once and no
-- engine has the empty ID, the choice is an engine that is known and not ignored, and no other
-- such engine serves fewer models.
pub find_least_loaded_engine-least :
    (r : RouteMap) (ig : List (String × Bool)) (x : String)
    → RoutesKnown r
    → SetsDistinct r.m
    → Named r
    → find_least_loaded_engine r ig ≡ some x
    → (eligible r ig x ≡ true) × ((y : String) → eligible r ig y ≡ true → load r.m x ≤ load r.m y)
find_least_loaded_engine-least r ig x known d named found = (
  chosen,
  λ y h. omega (
    arith,
    bound y h,
    counted-size r ig x d (eligible_not_ignored r ig x chosen),
    counted-size r ig y d (eligible_not_ignored r ig y h),
  ),
)
  where
    some_x : (is_empty (start r ig) ≡ false) × (x ≡ pick_min 0 "" (counted r ig))
    some_x = found_some r ig found

    least : Least (size_of (counted r ig)) (counted r ig) "" (pick_min 0 "" (counted r ig))
    least =
        pick_min-Least (size_of (counted r ig)) (counted r ig) 0 ""
          (size_of-Sized (counted r ig) (counted-Distinct r ig))
          (ground (arith, counted-keys r ig "" known, named)) (λ e. cc (==_refl {A = String} "", e))

    chosen : eligible r ig x ≡ true
    chosen = elim least.2 [
      | inl c ↦ rw (some_x.1) (sym (counted-keys r ig _ known) ∙ c)
      | inr n ↦ absurd (counted-ne-nil r ig known some_x.0 (n.1 (==_refl {A = String} "")))
    ]

    bound :
        (y : String) → eligible r ig y ≡ true → size_of (counted r ig) x ≤ size_of (counted r ig) y
    bound y h = rw (some_x.1) (least.1 y (counted-keys r ig y known ∙ h))

none_all :
    (r : RouteMap) (ig : List (String × Bool))
    → is_empty (start r ig) ≡ true
    → (y : String) → eligible r ig y ≡ false
unfolding contains
none_all r ig h y = ground (arith, start-keys r ig y)

all_none :
    (r : RouteMap) (ig : List (String × Bool))
    → ((y : String) → eligible r ig y ≡ false)
    → is_empty (start r ig) ≡ true
all_none r ig h = elim (Bool-cases (is_empty (start r ig))) [
  | inl e ↦ e
  | inr e ↦ let (y, k) = has_key (start r ig) e in cc (h y, start-keys r ig y, k)
]

-- There is no choice of a least loaded engine exactly when every known engine is ignored.
pub find_least_loaded_engine-none_iff :
    (r : RouteMap) (ig : List (String × Bool))
    → (find_least_loaded_engine r ig ≡ none) ↔ ((y : String) → eligible r ig y ≡ false)
unfolding find_least_loaded_engine
find_least_loaded_engine-none_iff r ig =
    (λ h. none_all r ig (ground arith), λ h. ground (arith, all_none r ig h))
