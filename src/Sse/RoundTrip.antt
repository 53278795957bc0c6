-- ===== src/Sse/RoundTrip.antt =====
-- Events that are written with a blank line after each are scanned as they were.
use inference_manager.Base.{
  All, Bool, Bool-cases, List, Option, [], ap, arith, false, inl, inr, leb, length, length-append,
  ltb, nat_eq, none, refl, some, string_eq, suc, true, zero, ℕ, ◌&&◌, ◌++◌, ◌+◌, ◌-◌, ◌<◌, ◌∙◌, ◌∷◌,
  ◌≡◌, ◌≤◌,
}
use inference_manager.Sse.{
  better, delims, drop, find_delim, index, next_token, scan, scan_within, sees_end, split, take,
  token_at, with_token,
}
use inference_manager.Router.RouteMap.{model_eq}
use inference_manager.Sse.Delimiters.{clean, drop-with_end, split-with_end, with_end}

-- A buffer that has room for an event and its blank line.
buffered :
    (limit : ℕ) (e rest : List ℕ)
    → length e + 2 ≤ limit
    → take limit (with_end e rest) ≡ with_end e (take (limit - (length e + 2)) rest)
buffered (suc (suc limit)) [] rest h = ap (λ n. 10 ∷ 10 ∷ take n rest) (omega arith)
buffered (suc limit) (x ∷ e) rest h =
    let fits : length e + 2 ≤ limit = omega (arith, h) in
    ap (λ t. x ∷ t) (buffered limit e rest fits)
    ∙ ap (λ n. x ∷ with_end e (take n rest)) (omega arith)
buffered zero e rest h = absurd (omega (arith, h))
buffered (suc zero) [] rest h = absurd (omega (arith, h))

next_token-with_end :
    (limit : ℕ) (end_with_data : Bool) (e rest : List ℕ)
    → clean e ≡ true
    → length e + 2 ≤ limit
    → next_token limit end_with_data (with_end e rest) ≡ (length e + 2, some e)
unfolding next_token
next_token-with_end limit end_with_data e rest h fits =
    elim (Bool-cases (sees_end limit end_with_data (with_end e rest))) [
      | inl k ↦ rw k (split-with_end e rest true h)
      | inr k ↦ rw k (
          ap (λ b. split b false) (buffered limit e rest fits)
          ∙ split-with_end e (take (limit - (length e + 2)) rest) false h)
    ]

-- Events, each with a blank line after it.
unfoldable pub encode : List (List ℕ) → List ℕ
encode [] = []
encode (e ∷ es) = e ++ 10 ∷ 10 ∷ encode es

abbrev pub all_clean : List (List ℕ) → Bool
all_clean [] = true
all_clean (e ∷ es) = clean e && all_clean es

-- Each event has room in a buffer, with the blank line after it.
abbrev pub all_fit : ℕ → List (List ℕ) → Bool
all_fit limit [] = true
all_fit limit (e ∷ es) = leb (length e + 2) limit && all_fit limit es

scan_within-nil :
    (limit : ℕ) (end_with_data : Bool) (fuel : ℕ)
    → 1 ≤ limit
    → scan_within limit end_with_data (suc fuel) [] ≡ ([], true)
unfolding scan_within next_token split
scan_within-nil limit end_with_data fuel h =
    let seen : ltb 0 limit ≡ true = ground arith in rw seen refl

length-with_end : (e rest : List ℕ) → length (with_end e rest) ≡ length e + 2 + length rest
length-with_end e rest = omega (arith, length-append e (10 ∷ 10 ∷ rest))

scan-token :
    (limit : ℕ) (end_with_data : Bool) (fuel n : ℕ) (bytes t : List ℕ)
    → next_token limit end_with_data bytes ≡ (n, some t)
    → scan_within limit end_with_data (suc fuel) bytes ≡ (
      t ∷ (scan_within limit end_with_data fuel (drop n bytes)).0,
      (scan_within limit end_with_data fuel (drop n bytes)).1,
    )
unfolding scan_within
scan-token limit end_with_data fuel n bytes t h =
    ap
      (λ s.
        with_token s.1 (sees_end limit end_with_data bytes)
          (scan_within limit end_with_data fuel (drop s.0 bytes)))
      h

scan_within-encode :
    (limit : ℕ) (end_with_data : Bool) (es : List (List ℕ)) (fuel : ℕ)
    → 1 ≤ limit
    → all_clean es ≡ true
    → all_fit limit es ≡ true
    → length (encode es) < fuel
    → scan_within limit end_with_data fuel (encode es) ≡ (es, true)
unfolding encode
scan_within-encode limit end_with_data es zero some_room h fit enough =
    absurd (omega (arith, enough))
scan_within-encode limit end_with_data [] (suc fuel) some_room h fit enough =
    scan_within-nil limit end_with_data fuel some_room
scan_within-encode limit end_with_data (e ∷ es) (suc fuel) some_room h fit enough =
    let left : length (encode es) < fuel = omega (arith, enough, length-with_end e (encode es)) in
    let room : length e + 2 ≤ limit = ground arith in
    scan-token limit end_with_data fuel (length e + 2) (with_end e (encode es)) e
      (next_token-with_end limit end_with_data e (encode es) (ground arith) room)
    ∙ ap
        (λ r. (
          e ∷ (scan_within limit end_with_data fuel r).0,
          (scan_within limit end_with_data fuel r).1,
        ))
        (drop-with_end e (encode es))
    ∙ ap (λ (t : List (List ℕ) × Bool). (e ∷ t.0, t.1))
        (scan_within-encode limit end_with_data es fuel some_room (ground arith) (ground arith)
          left)

-- Events without a carriage return, without a blank line and without a line end at their end, each
-- of at most 4,094 bytes, written with a blank line after each, are scanned as they were and
-- without an error, given more fuel than there are bytes, whether or not the reader gives the end
-- with the last bytes.
pub scan-encode :
    (end_with_data : Bool) (es : List (List ℕ)) (fuel : ℕ)
    → all_clean es ≡ true
    → all_fit 4096 es ≡ true
    → length (encode es) < fuel
    → scan end_with_data fuel (encode es) ≡ (es, true)
unfolding scan
scan-encode end_with_data es fuel h fit enough =
    scan_within-encode 4096 end_with_data es fuel (omega arith) h fit enough

-- The best delimiter is not empty.
abbrev Long : Option (ℕ × ℕ) → Type 0
Long none = Unit {0}
Long (some b) = 1 ≤ b.1

better-Long :
    (best : Option (ℕ × ℕ)) (o : Option ℕ) (len : ℕ)
    → 1 ≤ len
    → Long best
    → Long (better best o len)
better-Long none none len h b = tt
better-Long none (some n) len h b = h
better-Long (some c) none len h b = b
better-Long (some c) (some n) len h b = elim (Bool-cases (ltb n c.0)) [
  | inl y ↦ rw y h
  | inr y ↦ rw y b
]

find_delim-Long :
    (ds : List (List ℕ)) (bytes : List ℕ) (best : Option (ℕ × ℕ))
    → All (λ d. 1 ≤ length d) ds
    → Long best
    → Long (find_delim ds bytes best)
unfolding find_delim
find_delim-Long [] bytes best a b = b
find_delim-Long (d ∷ ds) bytes best (h, a) b =
    find_delim-Long ds bytes (better best (index d bytes) (length d)) a
      (better-Long best (index d bytes) (length d) h b)

length-drop : (n : ℕ) (xs : List ℕ) → length (drop n xs) ≡ length xs - n
length-drop zero xs = omega arith
length-drop (suc n) [] = omega arith
length-drop (suc n) (x ∷ xs) = omega (arith, length-drop n xs)

-- A token takes bytes.
abbrev Advances : ℕ × Option (List ℕ) → Type 0
Advances (n, none) = Unit {0}
Advances (n, some t) = 1 ≤ n

split-Advances : (bytes : List ℕ) (at_eof : Bool) → Advances (split bytes at_eof)
unfolding split
split-Advances [] at_eof = tt
split-Advances (x ∷ xs) at_eof = go (find_delim delims (x ∷ xs) none) at_eof (
    find_delim-Long delims (x ∷ xs) none
      (omega arith, (omega arith, (omega arith, (omega arith, tt)))) tt)
  where
    go : (b : Option (ℕ × ℕ)) (at_eof : Bool) → Long b → Advances (token_at (x ∷ xs) at_eof b)
    go none false h = tt
    go none true h = omega arith
    go (some b) at_eof h = omega (arith, h)

next_token-Advances :
    (limit : ℕ) (end_with_data : Bool) (bytes : List ℕ)
    → Advances (next_token limit end_with_data bytes)
unfolding next_token
next_token-Advances limit end_with_data bytes =
    elim (Bool-cases (sees_end limit end_with_data bytes)) [
      | inl k ↦ rw k (split-Advances bytes true)
      | inr k ↦ rw k (split-Advances (take limit bytes) false)
    ]

next_token-nil : (limit : ℕ) (end_with_data : Bool) → (next_token limit end_with_data []).1 ≡ none
unfolding next_token split
next_token-nil zero false = refl
next_token-nil zero true = refl
next_token-nil (suc limit) end_with_data = ground arith

scan_within-enough :
    (limit : ℕ) (end_with_data : Bool) (fuel more : ℕ) (bytes : List ℕ)
    → length bytes < fuel
    → scan_within limit end_with_data (fuel + more) bytes
      ≡ scan_within limit end_with_data fuel bytes
unfolding scan_within
scan_within-enough limit end_with_data zero more bytes h = absurd (omega (arith, h))
scan_within-enough limit end_with_data (suc fuel) more bytes h =
    let count : suc fuel + more ≡ suc (fuel + more) = omega arith in
    ap (λ n. scan_within limit end_with_data n bytes) count
    ∙ go bytes (next_token limit end_with_data bytes) h
        (next_token-Advances limit end_with_data bytes)
        (λ e. ap (λ b. (next_token limit end_with_data b).1) e ∙ next_token-nil limit end_with_data)
        (scan_within-enough limit end_with_data fuel more)
  where
    go :
        (bytes : List ℕ) (s : ℕ × Option (List ℕ))
        → length bytes < suc fuel
        → Advances s
        → (bytes ≡ [] → s.1 ≡ none)
        → ((rest : List ℕ)
            → length rest < fuel
            → scan_within limit end_with_data (fuel + more) rest
              ≡ scan_within limit end_with_data fuel rest)
        → with_token s.1
            (sees_end limit end_with_data bytes)
            (scan_within limit end_with_data (fuel + more) (drop s.0 bytes))
          ≡ with_token s.1
              (sees_end limit end_with_data bytes)
              (scan_within limit end_with_data fuel (drop s.0 bytes))
    go bytes (n, none) h a empty again = refl
    go [] (n, some t) h a empty again = absurd (cc (empty refl))
    go (x ∷ xs) (n, some t) h a empty again =
        let left : length (drop n (x ∷ xs)) < fuel = omega (arith, h, a, length-drop n (x ∷ xs)) in
        ap (λ (r : List (List ℕ) × Bool). (t ∷ r.0, r.1)) (again (drop n (x ∷ xs)) left)

-- The scan of any bytes ends: with more fuel than there are bytes, still more gives the same
-- tokens and the same end.
pub scan-enough :
    (end_with_data : Bool) (fuel more : ℕ) (bytes : List ℕ)
    → length bytes < fuel
    → scan end_with_data (fuel + more) bytes ≡ scan end_with_data fuel bytes
unfolding scan
scan-enough end_with_data fuel more bytes h =
    scan_within-enough 4096 end_with_data fuel more bytes h
