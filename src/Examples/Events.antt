-- ===== src/Examples/Events.antt =====
-- Server-sent events that are written and scanned.
use inference_manager.Base.{List, [], arith, false, nat_eq, refl, string_eq, true, ℕ, ◌+◌, ◌∷◌, ◌≡◌}
use inference_manager.Sse.{find_delim, index, next_token, scan, scan_within, split}
use inference_manager.Sse.RoundTrip.{encode, scan-encode, scan-enough}
use inference_manager.Router.RouteMap.{model_eq}

-- Two events, the second of two lines.
abbrev events : List (List ℕ)
events = (65 ∷ 66 ∷ []) ∷ (67 ∷ 10 ∷ 68 ∷ []) ∷ []

scan-encode_example : scan false 20 (encode events) ≡ (events, true)
unfolding encode
scan-encode_example = scan-encode false events 20 refl refl (omega arith)

-- Bytes that end in the middle of an event.
scan-enough_example :
    scan true (5 + 6) (65 ∷ 10 ∷ 10 ∷ 66 ∷ []) ≡ scan true 5 (65 ∷ 10 ∷ 10 ∷ 66 ∷ [])
scan-enough_example = scan-enough true 5 6 (65 ∷ 10 ∷ 10 ∷ 66 ∷ []) (omega arith)

-- A buffer of four bytes is too small for five without a blank line.
too_long :
    scan_within 4 true 9 (65 ∷ 10 ∷ 10 ∷ 66 ∷ 67 ∷ 68 ∷ 69 ∷ 70 ∷ []) ≡ ((65 ∷ []) ∷ [], false)
unfolding scan_within next_token split find_delim index
too_long = refl
