-- ===== src/Examples/Caches.antt =====
-- Runs of the cache of models.
use inference_manager.Base.{
  List, String, [], ap, delete, insert, lookup, nat_eq, refl, some, string_eq, sym, true, ℕ, ◌∷◌,
  ◌≡◌,
}
use inference_manager.Modelcache.{
  activate_model, add_model_to_cache, get_model, get_model_from_cache, remove_model_from_cache,
}
use inference_manager.Modelcache.Fresh.{CacheEvent, IsRecent, activates, get_model-IsRecent, gets}
use inference_manager.Router.RouteMap.{model_eq}
use inference_manager.Modelcache.Entries.{Manages}

-- A model with the time at which it was answered.
abbrev manages : Manages (String × ℕ)
manages now tenant id = some (id, now)

abbrev name_in : String × ℕ → String
name_in m = m.0

abbrev asked_before : List CacheEvent
asked_before = gets 5 "t1" "m1" ∷ activates "t1" "m2" true ∷ []

manages-named : (n : ℕ) (t i : String) (m : String × ℕ) → manages n t i ≡ some m → name_in m ≡ i
manages-named n t i m h = let same : (i, n) ≡ m = cc h in sym (ap name_in same)

get_model-IsRecent_example : IsRecent manages 10 8 "t1" "m1" ("m1", 5)
unfolding get_model get_model_from_cache add_model_to_cache activate_model remove_model_from_cache
    lookup insert delete
get_model-IsRecent_example =
    get_model-IsRecent name_in 10 manages asked_before 8 "t1" "m1" ("m1", 5) manages-named refl
