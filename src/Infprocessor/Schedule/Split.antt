-- ===== src/Infprocessor/Schedule/Split.antt =====
-- The local and the remote engines among the routes (`findMostPreferredtEngine`, infprocessor.go).
use mathlib.Core.List.{append-nil, append_assoc}
use inference_manager.Base.{
  ==_iff, ==_refl, Bool, Bool-cases, List, Option, Option-cases, String, [], ap, arith, contains,
  filter, inl, inr, lookup, nat_eq, none, not, refl, some, string_eq, sym, true, ◌++◌, ◌==◌, ◌↔◌,
  ◌∙◌, ◌∷◌, ◌≡◌,
}
use inference_manager.Infprocessor.Schedule.{split_engines}
use inference_manager.Infprocessor.State.{Engine}
use inference_manager.Infprocessor.Schedule.Least.{Among}

-- The engines that stand under the IDs, where each ID has one.
abbrev pub cons_found : Option Engine → Option (List Engine) → Option (List Engine)
cons_found none es = none
cons_found (some e) none = none
cons_found (some e) (some es) = some (e ∷ es)

unfoldable pub all_found : List (String × Engine) → List String → Option (List Engine)
all_found engines [] = some []
all_found engines (id ∷ ids) = cons_found (lookup id engines) (all_found engines ids)

abbrev pub is_remote : Engine → Bool
is_remote e = not e.is_local

abbrev pub split_of :
    List Engine → List Engine → Option (List Engine) → Option (List Engine × List Engine)
split_of l r none = none
split_of l r (some es) = some (l ++ filter (λ e. e.is_local) es, r ++ filter is_remote es)

pub split_engines-all_found :
    (engines : List (String × Engine)) (ids : List String) (l r : List Engine)
    → split_engines engines ids l r ≡ split_of l r (all_found engines ids)
unfolding split_engines all_found
split_engines-all_found engines [] l r = cc (append-nil l, append-nil r)
split_engines-all_found engines (id ∷ ids) l r = elim (Option-cases (lookup id engines)) [
  | inl h ↦ rw (h, split_engines, all_found)
  | inr (e, h) ↦
      rw (h, split_engines, all_found)
        (elim (Option-cases (all_found engines ids)) [
          | inl n ↦ split_engines-all_found engines ids _ _ ∙ rw n
          | inr (es, n) ↦
              split_engines-all_found engines ids _ _
              ∙ rw n (
                  ground (
                    arith,
                    append_assoc l (e ∷ []) (filter (λ (x : Engine). x.is_local) es),
                    append_assoc r (e ∷ []) (filter is_remote es),
                  ))
        ])
]

pub Among-filter :
    (p : Engine → Bool) (es : List Engine) (x : Engine)
    → Among x (filter p es) ↔ (Among x es × (p x ≡ true))
Among-filter p [] x = (λ n. absurd n, λ n. absurd n.0)
Among-filter p (e ∷ es) x = elim (Bool-cases (p e)) [
  | inl c ↦ rw c (
    λ m. elim m [
      | inl q ↦ (inl q, rw q c)
      | inr k ↦ (let (a, b) = (Among-filter p es x).0 k in (inr a, b))
    ],
    λ m. elim m.0 [ inl q ↦ inl q | inr k ↦ inr ((Among-filter p es x).1 (k, m.1)) ],
  )
  | inr c ↦ rw c (
    λ k. (let (a, b) = (Among-filter p es x).0 k in (inr a, b)),
    λ m. elim m.0 [
      | inl q ↦ absurd (cc (ap p q, c, m.1))
      | inr k ↦ (Among-filter p es x).1 (k, m.1)
    ],
  )
]

-- An engine that stands under one of the IDs.
abbrev pub Listed : List (String × Engine) → List String → Engine → Type 0
Listed engines ids x = (id : String) × (contains id ids ≡ true) × (lookup id engines ≡ some x)

cons_found-eq-some :
    (o : Option Engine) (p : Option (List Engine)) {es : List Engine}
    → cons_found o p ≡ some es
    → (e : Engine) × (rest : List Engine) × (o ≡ some e) × (p ≡ some rest) × (es ≡ e ∷ rest)
cons_found-eq-some none p h = cc
cons_found-eq-some (some e) none h = cc
cons_found-eq-some (some e) (some rest) h = (e, rest, refl, refl, ground arith)

pub all_found-Listed :
    (engines : List (String × Engine)) (ids : List String) (es : List Engine) (x : Engine)
    → all_found engines ids ≡ some es
    → Among x es ↔ Listed engines ids x
unfolding all_found contains
all_found-Listed engines [] [] x h = (λ n. absurd n, λ l. cc l.1)
all_found-Listed engines [] (e ∷ es) x h = cc
all_found-Listed engines (id ∷ ids) es x h =
    let (e, rest, at_id, below, eq) =
      cons_found-eq-some (lookup id engines) (all_found engines ids) h in
    let ih = all_found-Listed engines ids rest x below in
    rw eq (
      λ m. elim m [
        | inl q ↦ (id, ground (arith, ==_refl id), at_id ∙ ap some (sym q))
        | inr k ↦ (let (j, c, f) = ih.0 k in (j, ground (arith, c), f))
      ],
      λ l. elim (Bool-cases (id == l.0)) [
        | inl same ↦ inl (cc (l.2, ap (λ k. lookup k engines) ((==_iff id l.0).0 same), at_id))
        | inr other ↦ inr (ih.1 (l.0, ground (arith, l.1), l.2))
      ],
    )
