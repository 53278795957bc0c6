-- ===== src/Pods/Activator.antt =====
-- `ModelActivator` of engine/internal/runtime/model_activator.go: the models that are active are
-- pulled, and those that are not, or are gone, are deleted.
use inference_manager.Base.{
  Bool, List, Option, String, [], add, contains, false, if◌then◌else◌, map, nat_eq, none, not, some,
  string_eq, true, ℕ, ◌&&◌, ◌++◌, ◌∷◌,
}
use inference_manager.Infprocessor.Send.{ended}
use inference_manager.Router.RouteMap.{model_eq}
pub mod Chosen

pub data ActivationStatus : Type 0 where
  unspecified active inactive : ActivationStatus
  unknown_status : ℕ → ActivationStatus

pub record ListedModel : Type 0 where
  pub id : String
  pub is_base_model : Bool
  pub base_model_id : String
  pub activation_status : ActivationStatus

pub record ModelActivator : Type 0 where
  pub preloaded_model_ids : List String
  pub is_dynamic_lora_loading_enabled : Bool

-- What the goroutines of the group do: they run in any order.
pub data Activation : Type 0 where
  pulls deletes_model : String → Activation

abbrev is_active : ActivationStatus → Bool
is_active active = true
is_active _ = false

-- The base models of the active fine-tuned models.
unfoldable pub active_bases : List ListedModel → List String
active_bases [] = []
active_bases (x ∷ xs) =
    let rest = active_bases xs in
    if x.is_base_model
    then rest
    else if not (is_active x.activation_status)
    then rest
    else add x.base_model_id rest

-- A base model that the dynamic loading of an active adapter needs.
abbrev pub kept_for_adapters : ModelActivator → List String → ListedModel → Bool
kept_for_adapters a bases x =
    a.is_dynamic_lora_loading_enabled && x.is_base_model && contains x.id bases

abbrev pub by_status :
    ModelActivator → List String → ListedModel → ActivationStatus → Option (List Activation)
by_status a bases x unspecified = some []
by_status a bases x active = some (pulls x.id ∷ [])
by_status a bases x inactive =
    if kept_for_adapters a bases x then some [] else some (deletes_model x.id ∷ [])
by_status a bases x (unknown_status n) = none

-- One model of the list; `none` is an unknown state.
unfoldable pub activate_one : ModelActivator → List String → ListedModel → Option (List Activation)
activate_one a bases x =
    if contains x.id a.preloaded_model_ids
    then some (pulls x.id ∷ [])
    else by_status a bases x x.activation_status

-- The loop over the list: what was started, and whether it came to its end.
unfoldable pub activate_all :
    ModelActivator → List String → List ListedModel → List Activation × Bool
unfolding activate_one
activate_all a bases [] = ([], true)
activate_all a bases (x ∷ xs) =
    let (rest, ended) = activate_all a bases xs in
    elim (activate_one a bases x) [ none ↦ ([], false) | some acts ↦ (acts ++ rest, ended) ]

-- The models of the runtimes that the list does not have.
unfoldable pub delete_unlisted : List String → List String → List Activation
delete_unlisted listed [] = []
delete_unlisted listed (id ∷ ids) =
    let rest = delete_unlisted listed ids in
    if contains id listed then rest else deletes_model id ∷ rest

abbrev pub listed_ids : List ListedModel → List String
listed_ids = map (λ x. x.id)

-- `reconcileModelActivation`; `none` is a list that could not be got. The models of the runtimes are
-- those when the second loop starts.
unfoldable pub reconcile_model_activation :
    ModelActivator → Option (List ListedModel) → List String → List Activation × Bool
unfolding active_bases activate_all delete_unlisted
reconcile_model_activation a none runtimes = ([], true)
reconcile_model_activation a (some models) runtimes =
    let (acts, ended) = activate_all a (active_bases models) models in
    if ended then (acts ++ delete_unlisted (listed_ids models) runtimes, true) else (acts, false)
