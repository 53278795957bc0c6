-- ===== src/Sse.antt =====
-- common/pkg/sse/scanner.go: server-sent events, which a blank line separates. Bytes are numbers.
use inference_manager.Base.{
  Bool, List, Option, [], eqb, false, if◌then◌else◌, leb, length, ltb, nat_eq, none, not, some,
  string_eq, suc, true, zero, ℕ, ◌&&◌, ◌+◌, ◌||◌, ◌∷◌,
}
use inference_manager.Router.RouteMap.{model_eq}
use inference_manager.Infprocessor.Send.{ended}
pub mod Delimiters
pub mod RoundTrip

abbrev pub take : ℕ → List ℕ → List ℕ
take zero xs = []
take (suc n) [] = []
take (suc n) (x ∷ xs) = x ∷ take n xs

abbrev pub drop : ℕ → List ℕ → List ℕ
drop zero xs = xs
drop (suc n) [] = []
drop (suc n) (x ∷ xs) = drop n xs

abbrev pub starts_with : List ℕ → List ℕ → Bool
starts_with [] bytes = true
starts_with (d ∷ ds) [] = false
starts_with (d ∷ ds) (x ∷ xs) = eqb d x && starts_with ds xs

-- `bytes.Index`, for a separator that is not empty.
unfoldable pub index : List ℕ → List ℕ → Option ℕ
index d [] = none
index d (x ∷ xs) =
    let rest = index d xs in
    if starts_with d (x ∷ xs) then some 0 else elim rest [ none ↦ none | some n ↦ some (suc n) ]

abbrev pub delims : List (List ℕ)
delims = (13 ∷ 13 ∷ []) ∷ (10 ∷ 10 ∷ []) ∷ (13 ∷ 10 ∷ 13 ∷ 10 ∷ []) ∷ (10 ∷ 10 ∷ 10 ∷ 10 ∷ []) ∷ []

-- A step of the loop over the delimiters: the position and the length of the best one.
abbrev pub better : Option (ℕ × ℕ) → Option ℕ → ℕ → Option (ℕ × ℕ)
better none none dlen = none
better none (some n) dlen = some (n, dlen)
better (some b) none dlen = some b
better (some b) (some n) dlen = if ltb n b.0 then some (n, dlen) else some b

unfoldable pub find_delim : List (List ℕ) → List ℕ → Option (ℕ × ℕ) → Option (ℕ × ℕ)
unfolding index
find_delim [] bytes best = best
find_delim (d ∷ ds) bytes best = find_delim ds bytes (better best (index d bytes) (length d))

-- What `split` does with the position and the length of the best delimiter, or with none.
abbrev pub token_at : List ℕ → Bool → Option (ℕ × ℕ) → ℕ × Option (List ℕ)
token_at bytes at_eof (some b) = (b.0 + b.1, some (take b.0 bytes))
token_at bytes at_eof none = if not at_eof then (0, none) else (length bytes, some bytes)

-- `split`: the bytes to advance, and the token.
unfoldable pub split : List ℕ → Bool → ℕ × Option (List ℕ)
unfolding find_delim
split [] at_eof = (0, none)
split (x ∷ xs) at_eof = token_at (x ∷ xs) at_eof (find_delim delims (x ∷ xs) none)

-- The size of the buffer.
abbrev pub max_token_size : ℕ
max_token_size = 4096

-- Whether the rest of a stream is in the buffer and known to be the rest, when `split` is called on
-- it: it is shorter than the buffer, or as long and the reader gives the end together with the last
-- bytes.
abbrev pub sees_end : ℕ → Bool → List ℕ → Bool
sees_end limit end_with_data bytes =
    ltb (length bytes) limit || end_with_data && leb (length bytes) limit

-- The step of the scanner: `split` of the rest, or of a full buffer. The source calls `split` on
-- smaller pieces as well, while it reads; no delimiter begins inside another and ends before it, so
-- a piece that has a token has the same one.
unfoldable pub next_token : ℕ → Bool → List ℕ → ℕ × Option (List ℕ)
unfolding split
next_token limit end_with_data bytes =
    if sees_end limit end_with_data bytes then split bytes true else split (take limit bytes) false

-- The tokens, and whether the scanner ends without an error: a full buffer without a token is
-- `ErrTooLong`.
abbrev pub with_token : Option (List ℕ) → Bool → List (List ℕ) × Bool → List (List ℕ) × Bool
with_token none ended rest = ([], ended)
with_token (some t) ended rest = (t ∷ rest.0, rest.1)

unfoldable pub scan_within : ℕ → Bool → ℕ → List ℕ → List (List ℕ) × Bool
unfolding next_token
scan_within limit end_with_data zero bytes = ([], false)
scan_within limit end_with_data (suc fuel) bytes =
    let s = next_token limit end_with_data bytes in
    with_token s.1 (sees_end limit end_with_data bytes)
      (scan_within limit end_with_data fuel (drop s.0 bytes))

-- The scan of all bytes of a stream. A token advances the scanner, so more fuel than there are bytes
-- is enough.
unfoldable pub scan : Bool → ℕ → List ℕ → List (List ℕ) × Bool
unfolding scan_within
scan end_with_data fuel bytes = scan_within max_token_size end_with_data fuel bytes
