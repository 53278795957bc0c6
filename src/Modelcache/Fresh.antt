-- ===== src/Modelcache/Fresh.antt =====
-- How old an answer of the cache may be.
use inference_manager.Base.{
  Bool, Bool-cases, List, Option, String, [], ap, arith, false, inl, inr, lookup, ltb, nat_eq, none,
  refl, some, string_eq, true, ℕ, ◌-◌, ◌<◌, ◌∷◌, ◌≡◌,
}
use inference_manager.Modelcache.Entries.{
  Manages, Sound, Sound-added, Sound-deleted, Sound-empty, entry_in,
}
use inference_manager.Modelcache.{
  CacheEntry, ModelCache, activate_model, among_models, among_tenants, cached_or_ask, get_model,
  get_model_from_cache, remove_model_from_cache, unless_stale,
}
use inference_manager.Router.RouteMap.{model_eq}

pub data CacheEvent : Type 0 where
  gets : ℕ → String → String → CacheEvent
  activates : String → String → Bool → CacheEvent

abbrev pub on_cache_event :
    {M : Type 0} → (M → String) → ℕ → Manages M → CacheEvent → ModelCache M → ModelCache M
on_cache_event id_of period has (gets now tenant id) c =
    (get_model id_of period now tenant id (has now tenant id) c).0
on_cache_event id_of period has (activates tenant id done) c = activate_model tenant id done c

abbrev pub cache_run :
    {M : Type 0} → (M → String) → ℕ → Manages M → List CacheEvent → ModelCache M → ModelCache M
cache_run id_of period has [] c = c
cache_run id_of period has (e ∷ es) c =
    cache_run id_of period has es (on_cache_event id_of period has e c)

-- A model that is given was had by the model manager less than a period ago, or is what it has now.
pub data IsRecent {M : Type 0} (has : Manages M) (period now : ℕ) (tenant id : String) (m : M)
    : Type 0 where
  recently :
      (t : ℕ) → has t tenant id ≡ some m → now - t < period → IsRecent has period now tenant id m
  is_now : has now tenant id ≡ some m → IsRecent has period now tenant id m

module _ {M : Type 0} (id_of : M → String) (period : ℕ) (has : Manages M) where
  -- What the steps of `get_model` give: a sound cache, and an answer that is recent.
  record Given (now : ℕ) (tenant id : String) (r : ModelCache M × Option M) : Type 0 where
    sound : Sound has r.0
    recent : (m : M) → r.1 ≡ some m → IsRecent has period now tenant id m

  Given-none :
      (now : ℕ) (tenant id : String) (c : ModelCache M)
      → Sound has c
      → Given now tenant id (c, none)
  Given-none now tenant id c s = record { sound = s; recent = λ m h. absurd (cc h) }

  Given-unless_stale :
      (now : ℕ) (tenant id : String) (models : List (String × CacheEntry M)) (x : CacheEntry M)
      (c : ModelCache M)
      → lookup tenant c ≡ some models
      → lookup id models ≡ some x
      → Sound has c
      → Given now tenant id (unless_stale period now tenant id models x c)
  Given-unless_stale now tenant id models x c q k s =
      elim (Bool-cases (ltb (now - x.last_updated) period)) [
        | inr stale ↦
            rw stale (Given-none now tenant id _ (Sound-deleted has tenant id models c q s))
        | inl fresh ↦ rw fresh record {
          sound = s;
          recent = λ m h.
              recently x.last_updated (cc (s tenant id x (cc (k, ap (entry_in id) q)), h))
                (ground (arith, fresh));
        }
      ]

  Given-cached :
      (now : ℕ) (tenant id : String) (c : ModelCache M)
      → Sound has c
      → Given now tenant id (get_model_from_cache period now tenant id c)
  unfolding get_model_from_cache
  Given-cached now tenant id c s = tenants (lookup tenant c) refl
    where
      found :
          (models : List (String × CacheEntry M)) (o : Option (CacheEntry M))
          → lookup tenant c ≡ some models
          → lookup id models ≡ o
          → Given now tenant id (among_models period now tenant id models o c)
      found models none q k = Given-none now tenant id c s
      found models (some x) q k = Given-unless_stale now tenant id models x c q k s

      tenants :
          (o : Option (List (String × CacheEntry M)))
          → lookup tenant c ≡ o
          → Given now tenant id (among_tenants period now tenant id o c)
      tenants none q = Given-none now tenant id c s
      tenants (some models) q = found models (lookup id models) q refl

  Given-asked :
      (now : ℕ) (tenant id : String) (r : ModelCache M × Option M) (reply : Option M)
      → has now tenant id ≡ reply
      → ((m : M) → reply ≡ some m → id_of m ≡ id)
      → Given now tenant id r
      → Given now tenant id (cached_or_ask id_of now tenant reply r)
  Given-asked now tenant id (c, some m) reply q named g = g
  Given-asked now tenant id (c, none) none q named g = Given-none now tenant id c g.sound
  Given-asked now tenant id (c, none) (some m) q named g = record {
    sound = Sound-added id_of has now tenant m c (cc (q, named m refl)) g.sound;
    recent = λ n h. is_now (cc (q, h));
  }

  Given-get_model :
      (now : ℕ) (tenant id : String) (c : ModelCache M)
      → ((n : ℕ) (t i : String) (m : M) → has n t i ≡ some m → id_of m ≡ i)
      → Sound has c
      → Given now tenant id (get_model id_of period now tenant id (has now tenant id) c)
  unfolding get_model
  Given-get_model now tenant id c named s =
      Given-asked now tenant id (get_model_from_cache period now tenant id c) (has now tenant id)
        refl (named now tenant id) (Given-cached now tenant id c s)

  Sound-activate :
      (tenant id : String) (done : Bool) (c : ModelCache M)
      → Sound has c
      → Sound has (activate_model tenant id done c)
  unfolding activate_model remove_model_from_cache
  Sound-activate tenant id false c s = s
  Sound-activate tenant id true c s = go (lookup tenant c) refl
    where
      go :
          (o : Option (List (String × CacheEntry M)))
          → lookup tenant c ≡ o
          → Sound has (remove_model_from_cache tenant id c)
      go none q = rw (q, remove_model_from_cache) s
      go (some models) q =
          rw (q, remove_model_from_cache) (Sound-deleted has tenant id models c q s)

  Sound-cache_run :
      (es : List CacheEvent) (c : ModelCache M)
      → ((n : ℕ) (t i : String) (m : M) → has n t i ≡ some m → id_of m ≡ i)
      → Sound has c
      → Sound has (cache_run id_of period has es c)
  Sound-cache_run [] c named s = s
  Sound-cache_run (gets now tenant id ∷ es) c named s =
      Sound-cache_run es _ named (Given-get_model now tenant id c named s).sound
  Sound-cache_run (activates tenant id done ∷ es) c named s =
      Sound-cache_run es _ named (Sound-activate tenant id done c s)

  -- After any run from the empty cache, if the model manager answers with models of the ID that is
  -- asked for, a model that GetModel gives is one that the model manager had for this tenant and
  -- ID less than a period ago, or has now.
  pub get_model-IsRecent :
      (es : List CacheEvent) (now : ℕ) (tenant id : String) (m : M)
      → ((n : ℕ) (t i : String) (m : M) → has n t i ≡ some m → id_of m ≡ i)
      → (get_model id_of period now tenant id
          (has now tenant id)
          (cache_run id_of period has es [])).1
        ≡ some m
      → IsRecent has period now tenant id m
  get_model-IsRecent es now tenant id m named h =
      (Given-get_model now tenant id (cache_run id_of period has es []) named
          (Sound-cache_run es [] named (Sound-empty has))).recent
        m h
