-- ===== src/Modelcache/Entries.antt =====
-- What stands in the cache, and where it comes from.
use inference_manager.Base.{
  ==_iff, Bool, Bool-cases, List, Option, String, [], ap, arith, delete, false, if◌then◌else◌, inl,
  inr, insert, lookup, lookup-delete, lookup-insert, nat_eq, none, refl, some, string_eq, subst,
  true, ℕ, ◌==◌, ◌≡◌,
}
use inference_manager.Modelcache.{CacheEntry, ModelCache, add_model_to_cache, models_or_new}
use inference_manager.Router.RouteMap.{model_eq}

-- What the model manager has at a time, by tenant and ID.
abbrev pub Manages : Type 0 → Type 0
Manages M = ℕ → String → String → Option M

-- The entry of a model.
abbrev pub entry_in :
    {M : Type 0} → String → Option (List (String × CacheEntry M)) → Option (CacheEntry M)
entry_in id none = none
entry_in id (some models) = lookup id models

abbrev pub entry_of : {M : Type 0} → String → String → ModelCache M → Option (CacheEntry M)
entry_of tenant id c = entry_in id (lookup tenant c)

-- Each entry is what the model manager had when it was last updated.
abbrev pub Sound : {M : Type 0} → Manages M → ModelCache M → Type 0
Sound {M} has c =
    (tenant id : String) (x : CacheEntry M)
    → entry_of tenant id c ≡ some x
    → has x.last_updated tenant id ≡ some x.model

entry-deleted :
    {M : Type 0} (t i tenant id : String) (models : List (String × CacheEntry M)) (c : ModelCache M)
    (x : CacheEntry M)
    → lookup tenant c ≡ some models
    → entry_of t i (insert tenant (delete id models) c) ≡ some x
    → entry_of t i c ≡ some x
entry-deleted t i tenant id models c x q h = elim (Bool-cases (tenant == t)) [
  | inl k ↦ same k (
      cc (
        h,
        ap (entry_in i) (lookup-insert t tenant (delete id models) c),
        ap (λ b. entry_in i (if b then some (delete id models) else lookup t c)) k,
      ))
  | inr k ↦ cc (
    h,
    ap (entry_in i) (lookup-insert t tenant (delete id models) c),
    ap (λ b. entry_in i (if b then some (delete id models) else lookup t c)) k,
  )
]
  where
    kept : lookup i (delete id models) ≡ some x → lookup i models ≡ some x
    kept g = ground (arith, g, lookup-delete i id models)

    same : (tenant == t) ≡ true → lookup i (delete id models) ≡ some x → entry_of t i c ≡ some x
    same k g = cc (kept g, ap (entry_in i) q, ap (λ u. entry_of u i c) ((==_iff tenant t).0 k))

module _ {M : Type 0} (has : Manages M) where
  pub Sound-deleted :
      (tenant id : String) (models : List (String × CacheEntry M)) (c : ModelCache M)
      → lookup tenant c ≡ some models
      → Sound has c
      → Sound has (insert tenant (delete id models) c)
  Sound-deleted tenant id models c q s t i x h =
      s t i x (entry-deleted t i tenant id models c x q h)

  pub Sound-empty : Sound has []
  unfolding lookup
  Sound-empty tenant id x h = absurd (cc h)

module _ {M : Type 0} (id_of : M → String) (has : Manages M) where
  entry_or_new :
      (i : String) (o : Option (List (String × CacheEntry M)))
      → lookup i (models_or_new o) ≡ entry_in i o
  unfolding lookup
  entry_or_new i none = refl
  entry_or_new i (some models) = refl

  pub Sound-added :
      (now : ℕ) (tenant : String) (m : M) (c : ModelCache M)
      → has now tenant (id_of m) ≡ some m
      → Sound has c
      → Sound has (add_model_to_cache id_of now tenant m c)
  unfolding add_model_to_cache
  Sound-added now tenant m c held s t i x h = elim (Bool-cases (tenant == t)) [
    | inr k ↦ s t i x (cc (h, apart (tenant == t) k, found))
    | inl k ↦ elim (Bool-cases (id_of m == i)) [
      | inr l ↦ s t i x (
          cc (
            h,
            found,
            together (tenant == t) k,
            kept l,
            ap (λ u. entry_of u i c) ((==_iff tenant t).0 k),
          ))
      | inl l ↦ stored k l (cc (h, found, together (tenant == t) k, replaced l))
    ]
  ]
    where
      e : CacheEntry M
      e = record { model = m; last_updated = now }

      models : List (String × CacheEntry M)
      models = insert (id_of m) e (models_or_new (lookup tenant c))

      found :
          entry_of t i (insert tenant models c)
          ≡ entry_in i (if tenant == t then some models else lookup t c)
      found = ap (entry_in i) (lookup-insert t tenant models c)

      apart :
          (b : Bool)
          → b ≡ false
          → entry_in i (if b then some models else lookup t c) ≡ entry_of t i c
      apart b k = rw k refl

      together :
          (b : Bool)
          → b ≡ true
          → entry_in i (if b then some models else lookup t c) ≡ lookup i models
      together b k = rw k refl

      replaced : (id_of m == i) ≡ true → lookup i models ≡ some e
      replaced l = rw (lookup-insert i (id_of m) e (models_or_new (lookup tenant c)), l) refl

      kept : (id_of m == i) ≡ false → lookup i models ≡ entry_of tenant i c
      kept l =
          rw (lookup-insert i (id_of m) e (models_or_new (lookup tenant c)), l)
            (entry_or_new i (lookup tenant c))

      stored :
          (tenant == t) ≡ true
          → (id_of m == i) ≡ true
          → some x ≡ some e
          → has x.last_updated t i ≡ some x.model
      stored k l q =
          let same : e ≡ x = cc q in
          subst (λ (y : CacheEntry M). has y.last_updated t i ≡ some y.model) same
            (cc (held, (==_iff tenant t).0 k, (==_iff (id_of m) i).0 l))
