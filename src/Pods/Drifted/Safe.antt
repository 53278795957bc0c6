-- ===== src/Pods/Drifted/Safe.antt =====
-- Which pods the updater deletes.
use inference_manager.Base.{
  All, Bool, Bool-cases, List, Option, Option-cases, String, [], arith, contains, eqb, eqb_iff,
  false, if◌then◌else◌, inl, inr, leb, length, ltb, nat_eq, none, refl, some, string_eq, subst, suc,
  sym, true, ℕ, ◌==◌, ◌||◌, ◌∙◌, ◌∷◌, ◌≡◌, ◌≢◌, ◌⊎◌,
}
use inference_manager.Pods.{Pod, is_pod_crash_looping, is_pod_unschedulable}
use inference_manager.Pods.Drifted.{
  Deletions, DriftedSet, bad_index, choose_deletion_candidate, choose_from, delete_candidate,
  delete_drifted_pods, delete_first, delete_one, deletes, drifted_pods, failing_pods, first_not_in,
  pod_names, rank, settled_pods,
}
use inference_manager.Infprocessor.Send.Broadcast.{some-inj}
use inference_manager.Pods.Drifted.Up.{
  any_up, contains-settled_pods, count_up, failing-is_failing, is_failing, length-settled_pods,
}
use inference_manager.Router.RouteMap.{model_eq}
use inference_manager.Infprocessor.State.{in_progress}
use inference_manager.Router.Tenants.{names}

choose_from-first :
    (p : Pod) (ps : List Pod) (i : ℕ)
    → rank p.index ≡ some i
    → choose_from (p ∷ ps) none ≡ choose_from ps (some (p, i))
unfolding choose_from
choose_from-first p ps i n = ground (arith, n)

choose_from-next :
    (p : Pod) (ps : List Pod) (i : ℕ) (c : Pod × ℕ)
    → rank p.index ≡ some i
    → choose_from (p ∷ ps) (some c) ≡ choose_from ps (if ltb c.1 i then some (p, i) else some c)
unfolding choose_from
choose_from-next p ps i c n = ground (arith, n)

module _ (P : Pod → Type 0) where
  abbrev Holds : Option (Pod × ℕ) → Type 0
  Holds none = Unit {0}
  Holds (some b) = P b.0

  choose_from-Holds :
      (ps : List Pod) (best b : Option (Pod × ℕ))
      → All P ps
      → Holds best
      → choose_from ps best ≡ some b
      → Holds b
  unfolding choose_from
  choose_from-Holds [] best b a h q = subst Holds (some-inj q) h
  choose_from-Holds (p ∷ ps) none b (x, a) h q = elim (Option-cases (rank p.index)) [
    | inl n ↦ absurd (ground (arith, n, q))
    | inr (i, n) ↦ choose_from-Holds ps (some (p, i)) b a x (sym (choose_from-first p ps i n) ∙ q)
  ]
  choose_from-Holds (p ∷ ps) (some c) b (x, a) h q = elim (Option-cases (rank p.index)) [
    | inl n ↦ absurd (ground (arith, n, q))
    | inr (i, n) ↦
        choose_from-Holds ps (if ltb c.1 i then some (p, i) else some c) b a
          (better_of p i c x h (ltb c.1 i)) (sym (choose_from-next p ps i c n) ∙ q)
  ]
    where
      better_of :
          (p : Pod) (i : ℕ) (c : Pod × ℕ)
          → P p
          → P c.0
          → (t : Bool) → Holds (if t then some (p, i) else some c)
      better_of p i c x h true = x
      better_of p i c x h false = h

  -- All that is deleted.
  abbrev pub AllDeleted : Deletions → Type 0
  AllDeleted (deletes ps) = All P ps
  AllDeleted bad_index = Unit {0}

  delete_candidate-AllDeleted :
      (ps : List Pod) → All P ps → AllDeleted (delete_candidate (choose_deletion_candidate ps))
  unfolding choose_deletion_candidate
  delete_candidate-AllDeleted ps a =
      go (choose_from ps none) (λ b. choose_from-Holds ps none b a tt)
    where
      go :
          (c : Option (Option (Pod × ℕ)))
          → ((b : Option (Pod × ℕ)) → c ≡ some b → Holds b)
          → AllDeleted (delete_candidate c)
      go none h = tt
      go (some none) h = tt
      go (some (some (p, i))) h = (h (some (p, i)) refl, tt)

All-map {ℓ κ} :
    {A : Type ℓ} {P Q : A → Type κ} (xs : List A) → ((x : A) → P x → Q x) → All P xs → All Q xs
All-map [] f a = tt
All-map (x ∷ xs) f (p, a) = (f x p, All-map xs f a)

-- A pod of another revision, with a major change.
abbrev pub IsDrifted : (Pod → Bool) → DriftedSet → Pod → Type 0
IsDrifted major sts p = ((p.revision == sts.update_revision) ≡ false) × (major p ≡ true)

drifted_pods-IsDrifted :
    (major : Pod → Bool) (sts : DriftedSet) (ps : List Pod)
    → All (IsDrifted major sts) (drifted_pods major sts.update_revision ps)
unfolding drifted_pods
drifted_pods-IsDrifted major sts [] = tt
drifted_pods-IsDrifted major sts (p ∷ ps) = ground (arith, drifted_pods-IsDrifted major sts ps)

failing_pods-All :
    (P : Pod → Type 0) (ps : List Pod)
    → All P ps
    → All (λ p. P p × ((is_pod_unschedulable p || is_pod_crash_looping p) ≡ true)) (failing_pods ps)
unfolding failing_pods
failing_pods-All P [] a = tt
failing_pods-All P (p ∷ ps) (x, a) =
    elim (Bool-cases (is_pod_unschedulable p || is_pod_crash_looping p)) [
      | inl h ↦ rw h ((x, h), failing_pods-All P ps a)
      | inr h ↦ rw h (failing_pods-All P ps a)
    ]

-- A pod that may go: as many as there are replicas are up; or one less, and none of its name is; or
-- it fails.
abbrev pub MayGo : DriftedSet → List String → List Pod → Pod → Type 0
MayGo sts in_progress pods p =
    (count_up in_progress pods ≡ sts.replicas)
    ⊎ ((suc (count_up in_progress pods) ≡ sts.replicas) × (any_up in_progress p.name pods ≡ false))
    ⊎ (is_failing p ≡ true)

first_not_in-All :
    (P : Pod → Type 0) (names : List String) (ps : List Pod)
    → All P ps
    → AllDeleted (λ p. P p × (contains p.name names ≡ false)) (delete_first (first_not_in names ps))
unfolding first_not_in
first_not_in-All P names [] a = tt
first_not_in-All P names (p ∷ ps) (x, a) = elim (Bool-cases (contains p.name names)) [
  | inl h ↦ rw h (first_not_in-All P names ps a)
  | inr h ↦ rw h ((x, h), tt)
]

AllDeleted-map :
    {P Q : Pod → Type 0} (d : Deletions) → ((p : Pod) → P p → Q p) → AllDeleted P d → AllDeleted Q d
AllDeleted-map (deletes ps) f a = All-map ps f a
AllDeleted-map bad_index f a = tt

delete_one-MayGo :
    (sts : DriftedSet) (P : Pod → Type 0) (in_progress : List String) (pods drifted : List Pod)
    → All P drifted
    → AllDeleted
        (λ p. P p × MayGo sts in_progress pods p)
        (delete_one sts (settled_pods in_progress pods) drifted)
unfolding delete_one
delete_one-MayGo sts P in_progress pods drifted a =
    let ready = settled_pods in_progress pods in
    let count = length-settled_pods in_progress pods in
    elim (Bool-cases (eqb (length ready) sts.replicas)) [
      | inl h ↦ rw h (
          AllDeleted-map (delete_candidate (choose_deletion_candidate drifted))
            (λ p x. (x, inl (omega (arith, count, (eqb_iff (length ready) sts.replicas).0 h))))
            (delete_candidate-AllDeleted P drifted a))
      | inr h ↦ elim (Bool-cases (eqb (suc (length ready)) sts.replicas)) [
        | inl k ↦
            rw (h, k)
              (AllDeleted-map (delete_first (first_not_in (pod_names ready) drifted))
                (λ p x. (
                  x.0,
                  inr (
                      inl (
                        omega (arith, count, (eqb_iff (suc (length ready)) sts.replicas).0 k),
                        sym (contains-settled_pods in_progress p.name pods) ∙ x.1,
                      )),
                ))
                (first_not_in-All P (pod_names ready) drifted a))
        | inr k ↦
            rw (h, k)
              (AllDeleted-map (delete_candidate (choose_deletion_candidate (failing_pods drifted)))
                (λ p x. (x.0, inr (inr (failing-is_failing p x.1))))
                (delete_candidate-AllDeleted
                  (λ p. P p × ((is_pod_unschedulable p || is_pod_crash_looping p) ≡ true))
                  (failing_pods drifted) (failing_pods-All P drifted a)))
      ]
    ]

abbrev pub count_deleted : Deletions → ℕ
count_deleted (deletes ps) = length ps
count_deleted bad_index = 0

delete_candidate-one :
    (c : Option (Option (Pod × ℕ))) → leb (count_deleted (delete_candidate c)) 1 ≡ true
delete_candidate-one none = refl
delete_candidate-one (some none) = refl
delete_candidate-one (some (some (p, i))) = refl

delete_first-one : (o : Option Pod) → leb (count_deleted (delete_first o)) 1 ≡ true
delete_first-one none = refl
delete_first-one (some p) = refl

delete_one-one :
    (sts : DriftedSet) (ready drifted : List Pod)
    → leb (count_deleted (delete_one sts ready drifted)) 1 ≡ true
unfolding delete_one
delete_one-one sts ready drifted = ground (
  arith,
  delete_candidate-one (choose_deletion_candidate drifted),
  delete_first-one (first_not_in (pod_names ready) drifted),
  delete_candidate-one (choose_deletion_candidate (failing_pods drifted)),
)

-- For a stateful set that does not have exactly one replica, at most one pod is deleted. It has
-- another revision and a major change; and as many pods as there are replicas have the condition
-- Ready and are not being updated, or one less and none of its name is among these, or it is
-- unschedulable or in a crash loop by its own conditions.
pub delete_drifted_pods-safe :
    (major : Pod → Bool) (in_progress : List String) (sts : DriftedSet) (pods : List Pod)
    → sts.replicas ≢ 1
    → AllDeleted
        (λ p. IsDrifted major sts p × MayGo sts in_progress pods p)
        (delete_drifted_pods major in_progress sts pods)
      × (leb (count_deleted (delete_drifted_pods major in_progress sts pods)) 1 ≡ true)
unfolding delete_drifted_pods
delete_drifted_pods-safe major in_progress sts pods several =
    let drifted = drifted_pods major sts.update_revision pods in
    let not_one : eqb sts.replicas 1 ≡ false = ground (arith, eqb_iff sts.replicas 1, several) in
    elim (Bool-cases (eqb (length drifted) 0)) [
      | inl h ↦ rw h (tt, refl)
      | inr h ↦
          rw (h, not_one)
            (
              delete_one-MayGo sts (IsDrifted major sts) in_progress pods drifted
                  (drifted_pods-IsDrifted major sts pods),
              delete_one-one sts (settled_pods in_progress pods) drifted,
            )
    ]
