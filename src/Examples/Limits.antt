-- ===== src/Examples/Limits.antt =====
-- server/internal/rate on small inputs.
use inference_manager.Base.{
  List, [], arith, false, insert, leb, lookup, nat_eq, refl, string_eq, ℕ, ◌*◌, ◌+◌, ◌/◌, ◌<◌, ◌∷◌,
  ◌≡◌, ◌≤◌,
}
use inference_manager.Rate.Store.{MemoryStore, take, take_at}
use inference_manager.Rate.Clock.{memory_now, moved}
use inference_manager.Rate.Bound.{admitted, admitted_bound, take_retry}
use inference_manager.Router.RouteMap.{model_eq}

-- The start of 2020, in microseconds.
abbrev start_2020 : ℕ
start_2020 = 1577836800000000

-- A token in each millisecond, and a burst of two. The tokens of the key are taken up to a
-- millisecond and a half after the start of 2020, as the clock of the store has it.
abbrev store : MemoryStore
store = record {
  arrivals = ("key", 1577835222164700000) ∷ [];
  interval = 1000000;
  burst = 2;
  burst_offset = 2000000;
  second = 1000000000;
}

denied_now : (take store "key" 1 start_2020).1.allowed ≡ false
unfolding take take_at lookup memory_now
denied_now = refl

take_retry_example :
    let (t, r) = take store "key" 1 start_2020 in
    (t ≡ store)
    × (0 < r.retry_after)
    × ((wait : ℕ)
        → (take store "key" 1 (start_2020 + wait)).1.allowed
          ≡ leb r.retry_after (moved start_2020 wait * (store.second / 1000000)))
take_retry_example = take_retry store "key" 1 start_2020 (omega arith) denied_now (omega arith)

-- Requests in two milliseconds.
abbrev asked : List ℕ
asked = 1577836800002000 ∷ 1577836800003000 ∷ 1577836800003500 ∷ 1577836800004000 ∷ []

admitted_bound_example :
    admitted store "key" asked * 1000000 ≤ 2000000 + moved 1577836800002000 2000 * 1000
admitted_bound_example =
    admitted_bound store "key" 1577836800002000 2000 asked (omega arith) (omega arith)

all_admitted : admitted store "key" asked ≡ 4
unfolding admitted take take_at memory_now lookup insert
all_admitted = refl
