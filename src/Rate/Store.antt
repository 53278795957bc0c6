-- ===== src/Rate/Store.antt =====
-- server/internal/rate/store.go, limiter.go and config.go. The code counts seconds in floats. Here a
-- time is a number of ticks, so many to a second that the interval between two tokens is a whole
-- number of ticks: with `rate` tokens to a period in nanoseconds, a second has `rate * 10^9` ticks.
use inference_manager.Base.{
  Bool, List, Option, String, [], false, if◌then◌else◌, insert, lookup, ltb, max, nat_eq, none, not,
  or_else, some, string_eq, true, ℕ, ◌*◌, ◌+◌, ◌-◌, ◌/◌, ◌==◌,
}
use inference_manager.Rate.Clock.{memory_now}
use inference_manager.Base.Int.{is_positive, negsuc, pos, to_ℕ, ℤ}
use inference_manager.Infprocessor.Task.{second}
use inference_manager.Router.RouteMap.{model_eq}

pub record RedisStoreConfig : Type 0 where
  pub address : String

pub record Config : Type 0 where
  pub enable : Bool
  pub store_type : String
  pub redis : RedisStoreConfig
  pub rate : ℤ
  -- In nanoseconds.
  pub period : ℤ
  pub burst : ℤ

pub data ConfigError : Type 0 where
  address_required unknown_store_type bad_rate bad_period bad_burst : ConfigError

abbrev pub validate_limits : Config → Option ConfigError
validate_limits c =
    if not (is_positive c.rate)
    then some bad_rate
    else if not (is_positive c.period)
    then some bad_period
    else if not (is_positive c.burst)
    then some bad_burst
    else none

-- `Validate`: `none` where the configuration is accepted. The Redis password comes from the
-- environment and is not read here.
unfoldable pub validate : Config → Option ConfigError
validate c =
    if not c.enable
    then none
    else if c.store_type == "redis"
    then if c.redis.address == "" then some address_required else validate_limits c
    else if c.store_type == "memory"
    then validate_limits c
    else some unknown_store_type

unfoldable pub ticks_per_second : Config → ℕ
ticks_per_second c = to_ℕ c.rate * 1000000000

-- `intervalSec`, in ticks.
unfoldable pub interval : Config → ℕ
interval c = to_ℕ c.period

-- `burstOffset`, in ticks.
unfoldable pub burst_offset : Config → ℕ
unfolding interval
burst_offset c = to_ℕ c.burst * interval c

pub record Result : Type 0 where
  pub allowed : Bool
  pub limit : ℤ
  pub remaining : ℤ
  -- Nanoseconds.
  pub retry_after : ℤ
  pub reset_after : ℤ

pub record MemoryStore : Type 0 where
  -- The theoretical arrival time of the next token, by key.
  pub arrivals : List (String × ℕ)
  pub interval : ℕ
  pub burst : ℕ
  pub burst_offset : ℕ
  pub second : ℕ

unfoldable pub new_memory_store : Config → MemoryStore
new_memory_store c = record {
  arrivals = [];
  interval = interval c;
  burst = to_ℕ c.burst;
  burst_offset = burst_offset c;
  second = ticks_per_second c;
}

-- What `take` returns: whether the request is allowed, and the tokens that remain, the ticks to the
-- next token and the ticks to the full reset.
pub record Taken : Type 0 where
  pub allowed : Bool
  pub remaining : ℕ
  pub retry_after : ℕ
  pub reset_after : ℕ

abbrev pub arrival : MemoryStore → String → ℕ → ℕ
arrival s key now = or_else (lookup key s.arrivals) now

-- `newTat`.
abbrev pub next_arrival : MemoryStore → String → ℕ → ℕ → ℕ
next_arrival s key cost now = max (arrival s key now) now + s.interval * cost

-- `diff = now - (newTat - burstOffset)` is negative where `now + burstOffset < newTat`; its sign is
-- that of `remaining`, as the interval is positive.
unfoldable pub take_at : MemoryStore → String → ℕ → ℕ → MemoryStore × Taken
take_at s key cost now =
    let tat = next_arrival s key cost now in
    if ltb (now + s.burst_offset) tat
    then (
      s,
      record {
        allowed = false;
        remaining = 0;
        retry_after = tat - (now + s.burst_offset);
        reset_after = tat - now;
      },
    )
    else (
      record s { arrivals = insert key tat s.arrivals },
      record {
        allowed = true;
        remaining = (now + s.burst_offset - tat) / s.interval;
        retry_after = 0;
        reset_after = tat - now;
      },
    )

-- The ticks of a microsecond.
abbrev pub micro_ticks : MemoryStore → ℕ
micro_ticks s = s.second / 1000000

-- `take`, which reads the clock, at a time in microseconds since 1970.
unfoldable pub take : MemoryStore → String → ℕ → ℕ → MemoryStore × Taken
unfolding take_at
take s key cost unix_micro = take_at s key cost (memory_now unix_micro * micro_ticks s)

-- `math.Ceil` of a time in seconds, in nanoseconds.
abbrev pub ceil_second : ℕ → ℕ → ℕ
ceil_second second ticks = (ticks + second - 1) / second * 1000000000

-- `memoryStore.Take`.
unfoldable pub store_take : MemoryStore → String → ℕ → ℕ → MemoryStore × Result
store_take s key cost unix_micro =
    let (t, r) = take s key cost unix_micro in
    (
      t,
      record {
        allowed = r.allowed;
        limit = pos s.burst;
        remaining = pos r.remaining;
        retry_after = pos (r.retry_after * 1000000000 / s.second);
        reset_after = pos (ceil_second s.second r.reset_after);
      },
    )

unfoldable pub noop_take : Result
noop_take = record {
  allowed = true;
  limit = negsuc 0;
  remaining = negsuc 0;
  retry_after = negsuc 0;
  reset_after = negsuc 0;
}

-- The limiter with a store in memory, or with none. (The store in Redis runs the same algorithm in
-- the script.)
pub data Limiter : Type 0 where
  disabled : Limiter
  in_memory : MemoryStore → Limiter

-- `Limiter.Take`: one token.
unfoldable pub limiter_take : Limiter → String → ℕ → Limiter × Result
unfolding store_take
limiter_take disabled key unix_micro = (disabled, noop_take)
limiter_take (in_memory s) key unix_micro =
    let (t, r) = store_take s key 1 unix_micro in (in_memory t, r)
