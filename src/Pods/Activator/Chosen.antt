-- ===== src/Pods/Activator/Chosen.antt =====
-- Which models the activator pulls and deletes.
use inference_manager.Base.{
  ==_iff, Bool, List, Option-cases, String, [], arith, contains, contains-add, false, inl, inr,
  nat_eq, not, refl, some, string_eq, true, ◌&&◌, ◌++◌, ◌==◌, ◌||◌, ◌∷◌, ◌≡◌,
}
use inference_manager.Pods.Activator.{
  Activation, ActivationStatus, ListedModel, ModelActivator, activate_all, activate_one, active,
  active_bases, delete_unlisted, deletes_model, inactive, listed_ids, pulls,
  reconcile_model_activation,
}
use inference_manager.Router.RouteMap.{model_eq}

abbrev pub has_deletion : String → List Activation → Bool
has_deletion id [] = false
has_deletion id (pulls i ∷ rest) = has_deletion id rest
has_deletion id (deletes_model i ∷ rest) = i == id || has_deletion id rest

has_deletion-append :
    (id : String) (xs ys : List Activation)
    → has_deletion id (xs ++ ys) ≡ (has_deletion id xs || has_deletion id ys)
has_deletion-append id [] ys = refl
has_deletion-append id (pulls i ∷ xs) ys = has_deletion-append id xs ys
has_deletion-append id (deletes_model i ∷ xs) ys = ground (arith, has_deletion-append id xs ys)

has_deletion-unlisted :
    (id : String) (listed ids : List String)
    → has_deletion id (delete_unlisted listed ids) ≡ (contains id ids && not (contains id listed))
unfolding delete_unlisted contains
has_deletion-unlisted id listed [] = ground arith
has_deletion-unlisted id listed (x ∷ ids) =
    ground (arith, has_deletion-unlisted id listed ids, ==_iff x id)

abbrev is_inactive : ActivationStatus → Bool
is_inactive inactive = true
is_inactive _ = false

abbrev is_in_use : ActivationStatus → Bool
is_in_use active = true
is_in_use _ = false

-- Some fine-tuned model of the list is active and has this base model.
abbrev pub any_on_base : String → List ListedModel → Bool
any_on_base id [] = false
any_on_base id (x ∷ xs) =
    not x.is_base_model && is_in_use x.activation_status && x.base_model_id == id
    || any_on_base id xs

abbrev pub is_listed : String → List ListedModel → Bool
is_listed id [] = false
is_listed id (x ∷ xs) = x.id == id || is_listed id xs

-- A model of the list `models` that is to go.
abbrev pub to_go : ModelActivator → List ListedModel → ListedModel → Bool
to_go a models x =
    not (contains x.id a.preloaded_model_ids)
    && is_inactive x.activation_status
    && not (a.is_dynamic_lora_loading_enabled && x.is_base_model && any_on_base x.id models)

abbrev pub any_to_go : ModelActivator → List ListedModel → String → List ListedModel → Bool
any_to_go a models id [] = false
any_to_go a models id (x ∷ xs) = x.id == id && to_go a models x || any_to_go a models id xs

contains-active_bases :
    (id : String) (xs : List ListedModel) → contains id (active_bases xs) ≡ any_on_base id xs
unfolding active_bases contains
contains-active_bases id [] = refl
contains-active_bases id (x ∷ xs) =
    ground (arith, contains-add id x.base_model_id (active_bases xs), contains-active_bases id xs)

contains-listed_ids :
    (id : String) (xs : List ListedModel) → contains id (listed_ids xs) ≡ is_listed id xs
unfolding contains
contains-listed_ids id [] = refl
contains-listed_ids id (x ∷ xs) = ground (arith, contains-listed_ids id xs)

has_deletion-activate_one :
    (a : ModelActivator) (models : List ListedModel) (x : ListedModel) (id : String)
    (acts : List Activation)
    → activate_one a (active_bases models) x ≡ some acts
    → has_deletion id acts ≡ (x.id == id && to_go a models x)
unfolding activate_one
has_deletion-activate_one a models x id acts h = ground (arith, contains-active_bases x.id models)

has_deletion-activate_all :
    (a : ModelActivator) (models xs : List ListedModel) (id : String)
    → (activate_all a (active_bases models) xs).1 ≡ true
    → has_deletion id (activate_all a (active_bases models) xs).0 ≡ any_to_go a models id xs
unfolding activate_all
has_deletion-activate_all a models [] id h = refl
has_deletion-activate_all a models (x ∷ xs) id h =
    elim (Option-cases (activate_one a (active_bases models) x)) [
      | inl n ↦ ground arith
      | inr (acts, n) ↦ ground (
        arith,
        has_deletion-activate_all a models xs id,
        has_deletion-activate_one a models x id acts n,
        has_deletion-append id acts (activate_all a (active_bases models) xs).0,
      )
    ]

-- A round that meets no unknown state deletes a model exactly where it is listed as inactive, is
-- not preloaded and is not, with dynamic loading, a base model that a fine-tuned model of the list
-- that is active has, or where a runtime has it and the list does not.
pub reconcile-deletes :
    (a : ModelActivator) (models : List ListedModel) (runtimes : List String) (id : String)
    → (reconcile_model_activation a (some models) runtimes).1 ≡ true
    → has_deletion id (reconcile_model_activation a (some models) runtimes).0
      ≡ (any_to_go a models id models || contains id runtimes && not (is_listed id models))
unfolding reconcile_model_activation
reconcile-deletes a models runtimes id h = ground (
  arith,
  has_deletion-activate_all a models models id,
  has_deletion-append id (activate_all a (active_bases models) models).0
      (delete_unlisted (listed_ids models) runtimes),
  has_deletion-unlisted id (listed_ids models) runtimes,
  contains-listed_ids id models,
)
