-- ===== src/Infprocessor/Schedule/Least.antt =====
-- The least loaded engine of a list (`findLeastLoadedEngine`, infprocessor.go).
use inference_manager.Base.{
  Bool-cases, List, Option, String, [], ap, arith, false, inl, inr, length, ltb, nat_eq, refl, some,
  string_eq, subst, ℕ, ◌∷◌, ◌≡◌, ◌≤◌, ◌⊎◌,
}
use inference_manager.Infprocessor.Schedule.{find_least_loaded, found, least_loaded, num_tasks, ok}
use inference_manager.Infprocessor.State.{Engine}
use inference_manager.Infprocessor.Task.{Task}

-- An engine of the list.
abbrev pub Among : Engine → List Engine → Type 0
Among x [] = ⊥
Among x (e ∷ es) = (x ≡ e) ⊎ Among x es

abbrev pub AtMost : (String → ℕ) → Engine → List Engine → Type 0
AtMost num x es = (y : Engine) → Among y es → num x.id ≤ num y.id

abbrev pub Best : (String → ℕ) → List Engine → Option Engine → Type 0
Best num es o = (x : Engine) × (o ≡ some x) × Among x es × AtMost num x es

Best-skip :
    (num : String → ℕ) (b e : Engine) (es : List Engine) (o : Option Engine)
    → num b.id ≤ num e.id
    → Best num (b ∷ es) o
    → Best num (b ∷ e ∷ es) o
Best-skip num b e es o h (x, eq, m, least) = (
  x,
  eq,
  elim m [ inl p ↦ inl p | inr p ↦ inr (inr p) ],
  λ y k. elim k [
    | inl p ↦ least y (inl p)
    | inr q ↦ elim q [
      | inl p ↦ (let l : num x.id ≤ num b.id = least b (inl refl) in rw p (omega arith))
      | inr p ↦ least y (inr p)
    ]
  ],
)

Best-take :
    (num : String → ℕ) (b e : Engine) (es : List Engine) (o : Option Engine)
    → num e.id ≤ num b.id
    → Best num (e ∷ es) o
    → Best num (b ∷ e ∷ es) o
Best-take num b e es o h (x, eq, m, least) = (
  x,
  eq,
  inr m,
  λ y k. elim k [
    | inl p ↦ (let l : num x.id ≤ num e.id = least e (inl refl) in rw p (omega arith))
    | inr q ↦ least y q
  ],
)

least_loaded-Best :
    (num : String → ℕ) (b : Engine) (es : List Engine)
    → Best num (b ∷ es) (least_loaded num (num b.id) (some b) es)
unfolding least_loaded
least_loaded-Best num b [] =
    (b, refl, inl refl, λ y m. elim m [ inl p ↦ rw p (omega arith) | inr n ↦ absurd n ])
least_loaded-Best num b (e ∷ es) = elim (Bool-cases (ltb (num e.id) (num b.id))) [
  | inl c ↦ rw c (Best-take num b e es _ (ground arith) (least_loaded-Best num e es))
  | inr c ↦ rw c (Best-skip num b e es _ (ground arith) (least_loaded-Best num b es))
]

-- The loop finds an engine with the fewest tasks wherever there is an engine.
pub find_least_loaded-Best :
    (tasks : List Task) (e : Engine) (es : List Engine)
    → Best (num_tasks tasks) (e ∷ es) (find_least_loaded tasks (e ∷ es))
unfolding find_least_loaded
find_least_loaded-Best tasks e es = least_loaded-Best (num_tasks tasks) e es

pub find_least_loaded-least :
    (tasks : List Task) (es : List Engine) {x : Engine}
    → found (find_least_loaded tasks es) ≡ ok x
    → Among x es × AtMost (num_tasks tasks) x es
unfolding find_least_loaded
find_least_loaded-least tasks [] h = absurd (cc h)
find_least_loaded-least tasks (e ∷ es) {x} h =
    let (y, eq, m, least) = find_least_loaded-Best tasks e es in
    let same : y ≡ x = cc (ap found eq, h) in
    subst (λ z. Among z (e ∷ es) × AtMost (num_tasks tasks) z (e ∷ es)) same (m, least)

pub none-Among : (es : List Engine) → ltb 0 (length es) ≡ false → (y : Engine) → ¬ Among y es
none-Among [] h y m = m
none-Among (e ∷ es) h y m = ground arith
