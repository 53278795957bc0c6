-- ===== src/Modelcache.antt =====
-- `modelCache` of server/internal/server/model_cache.go: the models that the model manager gave, by
-- tenant and ID. The model is any type, with its ID.
use inference_manager.Base.{
  Bool, List, Option, String, [], delete, if◌then◌else◌, insert, lookup, ltb, nat_eq, none, some,
  string_eq, ℕ, ◌-◌,
}
use inference_manager.Infprocessor.Task.{model}
use inference_manager.Router.RouteMap.{model_eq}
pub mod Entries
pub mod Fresh

pub record CacheEntry (M : Type 0) : Type 0 where
  pub model : M
  pub last_updated : ℕ

abbrev pub ModelCache : Type 0 → Type 0
ModelCache M = List (String × List (String × CacheEntry M))

-- An entry that was found.
abbrev pub unless_stale :
    {M : Type 0}
    → ℕ
    → ℕ
    → String
    → String
    → List (String × CacheEntry M)
    → CacheEntry M
    → ModelCache M
    → ModelCache M × Option M
unless_stale period now tenant id models entry c =
    if ltb (now - entry.last_updated) period
    then (c, some entry.model)
    else (insert tenant (delete id models) c, none)

abbrev pub among_models :
    {M : Type 0}
    → ℕ
    → ℕ
    → String
    → String
    → List (String × CacheEntry M)
    → Option (CacheEntry M)
    → ModelCache M
    → ModelCache M × Option M
among_models period now tenant id models none c = (c, none)
among_models period now tenant id models (some entry) c =
    unless_stale period now tenant id models entry c

abbrev pub among_tenants :
    {M : Type 0}
    → ℕ
    → ℕ
    → String
    → String
    → Option (List (String × CacheEntry M))
    → ModelCache M
    → ModelCache M × Option M
among_tenants period now tenant id none c = (c, none)
among_tenants period now tenant id (some models) c =
    among_models period now tenant id models (lookup id models) c

unfoldable pub get_model_from_cache :
    {M : Type 0} → ℕ → ℕ → String → String → ModelCache M → ModelCache M × Option M
get_model_from_cache period now tenant id c = among_tenants period now tenant id (lookup tenant c) c

abbrev pub models_or_new :
    {M : Type 0} → Option (List (String × CacheEntry M)) → List (String × CacheEntry M)
models_or_new none = []
models_or_new (some models) = models

-- The entry stands under the ID of the model, whatever the ID was that was asked for.
unfoldable pub add_model_to_cache :
    {M : Type 0} → (M → String) → ℕ → String → M → ModelCache M → ModelCache M
add_model_to_cache id_of now tenant m c =
    insert tenant
      (insert (id_of m) (record { model = m; last_updated = now })
        (models_or_new (lookup tenant c)))
      c

unfoldable pub remove_model_from_cache :
    {M : Type 0} → String → String → ModelCache M → ModelCache M
remove_model_from_cache tenant id c = elim (lookup tenant c) [
  | none ↦ c
  | some models ↦ insert tenant (delete id models) c
]

-- `GetModel` where the cache has no entry: the answer of the model manager, `none` for an error.
abbrev pub ask_manager :
    {M : Type 0} → (M → String) → ℕ → String → Option M → ModelCache M → ModelCache M × Option M
ask_manager id_of now tenant none c = (c, none)
ask_manager id_of now tenant (some m) c = (add_model_to_cache id_of now tenant m c, some m)

abbrev pub cached_or_ask :
    {M : Type 0}
    → (M → String)
    → ℕ
    → String
    → Option M
    → ModelCache M × Option M
    → ModelCache M × Option M
cached_or_ask id_of now tenant reply (c, some m) = (c, some m)
cached_or_ask id_of now tenant reply (c, none) = ask_manager id_of now tenant reply c

unfoldable pub get_model :
    {M : Type 0}
    → (M → String)
    → ℕ
    → ℕ
    → String
    → String
    → Option M
    → ModelCache M
    → ModelCache M × Option M
unfolding get_model_from_cache add_model_to_cache
get_model id_of period now tenant id reply c =
    cached_or_ask id_of now tenant reply (get_model_from_cache period now tenant id c)

-- `ActivateModel`, with whether the model manager did it.
unfoldable pub activate_model : {M : Type 0} → String → String → Bool → ModelCache M → ModelCache M
unfolding remove_model_from_cache
activate_model tenant id done c = if done then remove_model_from_cache tenant id c else c
