-- ===== src/Rate/Bound.antt =====
-- How many requests the limiter lets through.
use inference_manager.Base.{
  Bool-cases, List, Option-cases, String, [], ap, arith, false, if◌then◌else◌, inl, inr, insert,
  leb, lookup, lookup-insert_self, max, nat_eq, or_else, string_eq, true, ℕ, ◌*◌, ◌+◌, ◌-◌, ◌/◌,
  ◌<◌, ◌∙◌, ◌∷◌, ◌≡◌, ◌≤◌, ◌⊎◌,
}
use inference_manager.Rate.Store.{MemoryStore, arrival, micro_ticks, next_arrival, take, take_at}
use inference_manager.Rate.Clock.{memory_now, memory_now_mono, memory_now-moved, moved}
use inference_manager.Router.RouteMap.{model_eq}

allowed-eq :
    (s : MemoryStore) (key : String) (cost now : ℕ)
    → (take_at s key cost now).1.allowed ≡ leb (next_arrival s key cost now) (now + s.burst_offset)
unfolding take_at
allowed-eq s key cost now = ground arith

arrival_later :
    (s : MemoryStore) (key : String) (now wait : ℕ)
    → (arrival s key (now + wait) ≡ arrival s key now)
      ⊎ ((arrival s key now ≡ now) × (arrival s key (now + wait) ≡ now + wait))
arrival_later s key now wait = elim (Option-cases (lookup key s.arrivals)) [
  | inl h ↦ inr (rw h, rw h)
  | inr (t, h) ↦ inl (rw h)
]

denied :
    (s : MemoryStore) (key : String) (cost now : ℕ)
    → (take_at s key cost now).1.allowed ≡ false
    → ((take_at s key cost now).0 ≡ s)
      × ((take_at s key cost now).1.retry_after
          ≡ next_arrival s key cost now - (now + s.burst_offset))
      × (now + s.burst_offset < next_arrival s key cost now)
unfolding take_at
denied s key cost now h = (ground arith, ground arith, ground arith)

retry_allowed :
    (s : MemoryStore) (key : String) (cost now wait : ℕ)
    → now + s.burst_offset < next_arrival s key cost now
    → s.interval * cost ≤ s.burst_offset
    → wait ≡ next_arrival s key cost now - (now + s.burst_offset)
    → leb (next_arrival s key cost (now + wait)) (now + wait + s.burst_offset) ≡ true
retry_allowed s key cost now wait d fits e = ground (arith, arrival_later s key now wait)

early_denied :
    (s : MemoryStore) (key : String) (cost now wait : ℕ)
    → now + s.burst_offset < next_arrival s key cost now
    → wait < next_arrival s key cost now - (now + s.burst_offset)
    → leb (next_arrival s key cost (now + wait)) (now + wait + s.burst_offset) ≡ false
early_denied s key cost now wait d l = ground (arith, arrival_later s key now wait)

scaled : (a b c k : ℕ) → a ≡ b + c → a * k ≡ b * k + c * k
scaled a b c k h = rw h (grind arith)

allowed_iff :
    (s : MemoryStore) (key : String) (cost now wait : ℕ)
    → (take_at s key cost now).1.allowed ≡ false
    → s.interval * cost ≤ s.burst_offset
    → (take_at s key cost (now + wait)).1.allowed ≡ leb (take_at s key cost now).1.retry_after wait
allowed_iff s key cost now wait h fits =
    let (same, retry, late) = denied s key cost now h in
    allowed-eq s key cost (now + wait)
    ∙ ground (arith, arrival_later s key now wait, retry, late, fits)

-- A denied request after the start of 2020, for whose cost the burst has room, changes nothing.
-- Where no other request takes the tokens of the key, it is allowed after a wait exactly where the
-- clock of the store has moved by at least the time that it was told, and it moves by the wait,
-- and by another 999,999 microseconds for each second that begins in it.
pub take_retry :
    (s : MemoryStore) (key : String) (cost now : ℕ)
    → 1577836800000000 ≤ now
    → (take s key cost now).1.allowed ≡ false
    → s.interval * cost ≤ s.burst_offset
    → let (t, r) = take s key cost now in
      (t ≡ s)
      × (0 < r.retry_after)
      × ((wait : ℕ)
          → (take s key cost (now + wait)).1.allowed
            ≡ leb r.retry_after (moved now wait * (s.second / 1000000)))
unfolding take
take_retry s key cost now late h fits =
    let clock = memory_now now * micro_ticks s in
    let (same, retry, short) = denied s key cost clock h in
    (
      same,
      omega arith,
      λ wait.
          let later : memory_now (now + wait) * micro_ticks s
              ≡ clock + moved now wait * micro_ticks s =
            scaled (memory_now (now + wait)) (memory_now now) (moved now wait) (micro_ticks s)
              (memory_now-moved now wait late) in
          ap (λ n. (take_at s key cost n).1.allowed) later
          ∙ allowed_iff s key cost clock (moved now wait * micro_ticks s) h fits,
    )

-- The times at which a key asks for one token, none before `start` and none after `end`.
abbrev pub Between : ℕ → ℕ → List ℕ → Type 0
Between start end [] = Unit {0}
Between start end (now ∷ nows) = (start ≤ now) × (now ≤ end) × Between start end nows

-- How many of the requests are allowed.
unfoldable pub admitted : MemoryStore → String → List ℕ → ℕ
admitted s key [] = 0
admitted s key (now ∷ nows) =
    let (t, r) = take s key 1 now in (if r.allowed then 1 else 0) + admitted t key nows

-- The key's tokens are taken up to `a`, seen from `start` on.
abbrev TakenTo : MemoryStore → String → ℕ → ℕ → Type 0
TakenTo s key start a = (now : ℕ) → start ≤ now → a ≤ max (arrival s key now) now

taken-TakenTo :
    (s : MemoryStore) (key : String) (start tat : ℕ)
    → TakenTo (record s { arrivals = insert key tat s.arrivals }) key start tat
taken-TakenTo s key start tat now h =
    let e : arrival (record s { arrivals = insert key tat s.arrivals }) key now ≡ tat =
      ap (λ o. or_else o now) (lookup-insert_self key tat s.arrivals) in
    omega (arith, e)

taken_allowed :
    (s : MemoryStore) (key : String) (now : ℕ)
    → (take_at s key 1 now).1.allowed ≡ true
    → ((take_at s key 1 now).0
        ≡ record s { arrivals = insert key (next_arrival s key 1 now) s.arrivals })
      × (next_arrival s key 1 now ≤ now + s.burst_offset)
unfolding take_at
taken_allowed s key now h = (ground arith, ground arith)

-- The clock of the store at each of the times, for so many ticks to a microsecond.
abbrev clocks : ℕ → List ℕ → List ℕ
clocks k [] = []
clocks k (now ∷ nows) = memory_now now * k ∷ clocks k nows

Between-clocks :
    (k start end : ℕ) (nows : List ℕ)
    → Between start end nows
    → Between (memory_now start * k) (memory_now end * k) (clocks k nows)
Between-clocks k start end [] b = tt
Between-clocks k start end (now ∷ nows) (l, u, b) = (
  times_mono (memory_now_mono start now l),
  times_mono (memory_now_mono now end u),
  Between-clocks k start end nows b,
)
  where
    times_mono : {m n : ℕ} → m ≤ n → m * k ≤ n * k
    times_mono h = grind arith

admitted_level :
    (s : MemoryStore) (key : String) (start end a : ℕ) (nows : List ℕ)
    → TakenTo s key start a
    → Between start end (clocks (micro_ticks s) nows)
    → admitted s key nows * s.interval + a ≤ max a (end + s.burst_offset)
unfolding admitted take
admitted_level s key start end a [] q b = omega arith
admitted_level s key start end a (now ∷ nows) q b =
    let n = memory_now now * micro_ticks s in
    elim (Bool-cases (take_at s key 1 n).1.allowed) [
      | inl c ↦
          let (t, le) = taken_allowed s key n c in
          let tat = next_arrival s key 1 n in
          let ih =
            admitted_level (record s { arrivals = insert key tat s.arrivals }) key start end tat
              nows (taken-TakenTo s key start tat) b.2 in
          rw (c, t) (grind (arith, ih, le, q n b.0, b.1))
      | inr c ↦
          let same = (denied s key 1 n c).0 in
          rw (c, same) (omega (arith, admitted_level s key start end a nows q b.2))
    ]

-- The requests of a key in a window of time after the start of 2020, in order or not, are allowed
-- no more tokens than the burst and what the clock of the store adds in the window: each
-- microsecond once, and another 999,999 microseconds for each second that begins in it.
pub admitted_bound :
    (s : MemoryStore) (key : String) (start span : ℕ) (nows : List ℕ)
    → 1577836800000000 ≤ start
    → Between start (start + span) nows
    → admitted s key nows * s.interval ≤ s.burst_offset + moved start span * (s.second / 1000000)
admitted_bound s key start span nows late b =
    let k = micro_ticks s in
    let level =
      admitted_level s key (memory_now start * k) (memory_now (start + span) * k)
        (memory_now start * k) nows (λ now h. omega arith)
        (Between-clocks k start (start + span) nows b) in
    let window : memory_now (start + span) * k ≡ memory_now start * k + moved start span * k =
      scaled (memory_now (start + span)) (memory_now start) (moved start span) k
        (memory_now-moved start span late) in
    omega (arith, level, window)
