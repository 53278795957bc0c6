-- ===== src/Sse/Delimiters.antt =====
-- Where the first delimiter stands after an event, and what `split` does there.
use inference_manager.Base.{
  Bool, List, Option, Option-cases, [], ap, arith, eqb, false, inl, inr, length, ltb, nat_eq, none,
  not, refl, some, string_eq, suc, true, ℕ, ◌&&◌, ◌++◌, ◌+◌, ◌∙◌, ◌∷◌, ◌≡◌,
}
use inference_manager.Sse.{better, delims, drop, find_delim, index, split, take, token_at}
use inference_manager.Router.RouteMap.{model_eq}

-- An event: no carriage return, no blank line, and no line end at its end.
abbrev pub clean : List ℕ → Bool
clean [] = true
clean (x ∷ []) = not (eqb x 13) && not (eqb x 10)
clean (x ∷ y ∷ xs) = not (eqb x 13) && not (eqb x 10 && eqb y 10) && clean (y ∷ xs)

abbrev pub with_end : List ℕ → List ℕ → List ℕ
with_end e rest = e ++ 10 ∷ 10 ∷ rest

index-blank :
    (e rest : List ℕ) → clean e ≡ true → index (10 ∷ 10 ∷ []) (with_end e rest) ≡ some (length e)
unfolding index
index-blank [] rest h = refl
index-blank (x ∷ []) rest h = ground arith
index-blank (x ∷ y ∷ e) rest h = ground (arith, index-blank (y ∷ e) rest)

-- No delimiter begins earlier, and one with a carriage return not there either.
abbrev Later : ℕ → Option ℕ → Type 0
Later n none = Unit {0}
Later n (some k) = ltb n k ≡ true

abbrev NotBefore : ℕ → Option ℕ → Type 0
NotBefore n none = Unit {0}
NotBefore n (some k) = ltb k n ≡ false

index-cr :
    (ds e rest : List ℕ) → clean e ≡ true → Later (length e) (index (13 ∷ ds) (with_end e rest))
unfolding index
index-cr ds [] rest h = elim (Option-cases (index (13 ∷ ds) rest)) [
  | inl n ↦ ground arith
  | inr (k, n) ↦ ground arith
]
index-cr ds (x ∷ []) rest h = elim (Option-cases (index (13 ∷ ds) rest)) [
  | inl n ↦ ground arith
  | inr (k, n) ↦ ground arith
]
index-cr ds (x ∷ y ∷ e) rest h = elim (Option-cases (index (13 ∷ ds) (with_end (y ∷ e) rest))) [
  | inl n ↦ ground (arith, index-cr ds (y ∷ e) rest)
  | inr (k, n) ↦ ground (arith, index-cr ds (y ∷ e) rest)
]

index-lf :
    (ds e rest : List ℕ)
    → clean e ≡ true
    → NotBefore (length e) (index (10 ∷ 10 ∷ ds) (with_end e rest))
unfolding index
index-lf ds [] rest h = elim (Option-cases (index (10 ∷ 10 ∷ ds) (10 ∷ 10 ∷ rest))) [
  | inl n ↦ ground arith
  | inr (k, n) ↦ ground arith
]
index-lf ds (x ∷ []) rest h = elim (Option-cases (index (10 ∷ 10 ∷ ds) (10 ∷ 10 ∷ rest))) [
  | inl n ↦ ground arith
  | inr (k, n) ↦ ground arith
]
index-lf ds (x ∷ y ∷ e) rest h =
    elim (Option-cases (index (10 ∷ 10 ∷ ds) (with_end (y ∷ e) rest))) [
      | inl n ↦ ground (arith, index-lf ds (y ∷ e) rest)
      | inr (k, n) ↦ ground (arith, index-lf ds (y ∷ e) rest)
    ]

better-Later :
    (n : ℕ) (o : Option ℕ) → Later n o → better (better none o 2) (some n) 2 ≡ some (n, 2)
better-Later n none h = refl
better-Later n (some k) h = ground arith

better-NotBefore :
    (n len : ℕ) (o : Option ℕ) → NotBefore n o → better (some (n, 2)) o len ≡ some (n, 2)
better-NotBefore n len none h = refl
better-NotBefore n len (some k) h = rw h refl

Later-NotBefore : (n : ℕ) (o : Option ℕ) → Later n o → NotBefore n o
Later-NotBefore n none h = tt
Later-NotBefore n (some k) h = ground arith

find_delim-with_end :
    (e rest : List ℕ)
    → clean e ≡ true
    → find_delim delims (with_end e rest) none ≡ some (length e, 2)
unfolding find_delim
find_delim-with_end e rest h =
    let text = with_end e rest in
    rw
      (
        index-blank e rest h,
        better-Later (length e) (index (13 ∷ 13 ∷ []) text) (index-cr (13 ∷ []) e rest h),
        better-NotBefore (length e) 4 (index (13 ∷ 10 ∷ 13 ∷ 10 ∷ []) text) (
            Later-NotBefore (length e) (index (13 ∷ 10 ∷ 13 ∷ 10 ∷ []) text)
              (index-cr (10 ∷ 13 ∷ 10 ∷ []) e rest h)),
      )
      (better-NotBefore (length e) 4 (index (10 ∷ 10 ∷ 10 ∷ 10 ∷ []) text)
        (index-lf (10 ∷ 10 ∷ []) e rest h))

take-with_end : (e rest : List ℕ) → take (length e) (with_end e rest) ≡ e
take-with_end [] rest = refl
take-with_end (x ∷ e) rest = ap (λ t. x ∷ t) (take-with_end e rest)

pub drop-with_end : (e rest : List ℕ) → drop (length e + 2) (with_end e rest) ≡ rest
drop-with_end [] rest = refl
drop-with_end (x ∷ e) rest =
    let count : suc (length e) + 2 ≡ suc (length e + 2) = omega arith in
    ap (λ n. drop n (x ∷ with_end e rest)) count ∙ drop-with_end e rest

pub split-with_end :
    (e rest : List ℕ) (at_eof : Bool)
    → clean e ≡ true
    → split (with_end e rest) at_eof ≡ (length e + 2, some e)
unfolding split
split-with_end [] rest at_eof h =
    ap (token_at (with_end [] rest) at_eof) (find_delim-with_end [] rest h)
split-with_end (x ∷ e) rest at_eof h =
    ap (token_at (with_end (x ∷ e) rest) at_eof) (find_delim-with_end (x ∷ e) rest h)
    ∙ ap (λ t. (length (x ∷ e) + 2, some t)) (take-with_end (x ∷ e) rest)
