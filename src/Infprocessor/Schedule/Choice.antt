-- ===== src/Infprocessor/Schedule/Choice.antt =====
-- The engine that a task goes to: local before remote, then the least loaded.
use inference_manager.Base.{
  Bool-cases, List, Option-cases, String, [], ap, arith, false, filter, inl, inr, length, ltb,
  nat_eq, none, not, some, string_eq, subst, true, ◌∙◌, ◌≡◌, ◌≤◌,
}
use inference_manager.Infprocessor.Schedule.{
  find_least_loaded, find_most_preferred_engine, found, num_tasks, ok, prefer_local, split_engines,
}
use inference_manager.Infprocessor.State.{Engine, Processor, in_progress, tenant_engines}
use inference_manager.Infprocessor.Task.{Task}
use inference_manager.Infprocessor.Schedule.Least.{find_least_loaded-least, none-Among}
use inference_manager.Infprocessor.Schedule.Split.{
  Among-filter, Listed, all_found, all_found-Listed, is_remote, split_engines-all_found, split_of,
}

-- What is promised of the engine chosen for a task.
pub record Preferred (tasks : List Task) (engines : List (String × Engine)) (ids : List String)
    (x : Engine) : Type 0 where
  pub listed : Listed engines ids x
  -- A remote engine only where none of the engines is local.
  pub local_first : (y : Engine) → Listed engines ids y → y.is_local ≡ true → x.is_local ≡ true
  -- No engine of its kind has fewer tasks in progress.
  pub least :
      (y : Engine)
      → Listed engines ids y
      → y.is_local ≡ x.is_local
      → num_tasks tasks x.id ≤ num_tasks tasks y.id

module _ (tasks : List Task) (engines : List (String × Engine)) (ids : List String)
    (es : List Engine) (all : all_found engines ids ≡ some es) where
  local_case :
      {x : Engine}
      → found (find_least_loaded tasks (filter (λ e. e.is_local) es)) ≡ ok x
      → Preferred tasks engines ids x
  local_case {x} h =
      let (m, least) = find_least_loaded-least tasks (filter (λ e. e.is_local) es) h in
      let (here, is_local) = (Among-filter (λ e. e.is_local) es x).0 m in
      record {
        listed = (all_found-Listed engines ids es x all).0 here;
        local_first = λ y l q. is_local;
        least = λ y l q. least y (
            (Among-filter (λ e. e.is_local) es y).1
              ((all_found-Listed engines ids es y all).1 l, q ∙ is_local));
      }

  remote_case :
      {x : Engine}
      → ltb 0 (length (filter (λ (e : Engine). e.is_local) es)) ≡ false
      → found (find_least_loaded tasks (filter is_remote es)) ≡ ok x
      → Preferred tasks engines ids x
  remote_case {x} no_local h =
      let (m, least) = find_least_loaded-least tasks (filter is_remote es) h in
      let (here, remote) = (Among-filter is_remote es x).0 m in
      record {
        listed = (all_found-Listed engines ids es x all).0 here;
        local_first = λ y l q. absurd (
            none-Among (filter (λ e. e.is_local) es) no_local y (
              (Among-filter (λ e. e.is_local) es y).1
                ((all_found-Listed engines ids es y all).1 l, q)));
        least = λ y l q. least y (
            (Among-filter is_remote es y).1
              ((all_found-Listed engines ids es y all).1 l, ap not q ∙ remote));
      }

  Preferred-found :
      {x : Engine}
      → prefer_local tasks (split_engines engines ids [] []) ≡ ok x
      → Preferred tasks engines ids x
  Preferred-found {x} h = go (subst (λ o. prefer_local tasks o ≡ ok x) split h)
    where
      split :
          split_engines engines ids [] [] ≡ some (filter (λ e. e.is_local) es, filter is_remote es)
      split = split_engines-all_found engines ids [] [] ∙ rw all

      go :
          prefer_local tasks (some (filter (λ e. e.is_local) es, filter is_remote es)) ≡ ok x
          → Preferred tasks engines ids x
      go k = elim (Bool-cases (ltb 0 (length (filter (λ (e : Engine). e.is_local) es)))) [
        | inl c ↦ local_case (rw c at k)
        | inr c ↦ remote_case c (rw c at k)
      ]

-- The engine chosen among the routes stands under one of the IDs, is remote only where no local
-- one is among them, and has the fewest tasks in progress among those of its kind.
pub find_most_preferred_engine-Preferred :
    (p : Processor) (ids : List String) (tenant_id : String) {x : Engine}
    → find_most_preferred_engine p ids tenant_id ≡ ok x
    → Preferred (in_progress p) (tenant_engines p tenant_id) ids x
unfolding find_most_preferred_engine
find_most_preferred_engine-Preferred p ids tenant_id {x} h =
    elim (Option-cases (all_found (tenant_engines p tenant_id) ids)) [
      | inl n ↦ absurd (missing n)
      | inr (es, a) ↦ Preferred-found (in_progress p) (tenant_engines p tenant_id) ids es a chosen
    ]
  where
    chosen :
        prefer_local (in_progress p) (split_engines (tenant_engines p tenant_id) ids [] []) ≡ ok x
    chosen = ground arith

    missing : ¬ (all_found (tenant_engines p tenant_id) ids ≡ none)
    missing n =
        let split : split_engines (tenant_engines p tenant_id) ids [] [] ≡ none =
          split_engines-all_found (tenant_engines p tenant_id) ids [] [] ∙ ap (split_of [] []) n in
        cc (ap (prefer_local (in_progress p)) split, chosen)
