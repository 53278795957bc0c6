-- ===== src/Rate/Clock.antt =====
-- The clocks of the two stores, in microseconds since the start of 2020: store.go reads
-- `t.Unix()` and `t.UnixMicro()`, the script gcra_ratelimit.lua reads Redis' TIME.
use inference_manager.Base.{arith, nat_eq, string_eq, ℕ, ◌%◌, ◌*◌, ◌+◌, ◌-◌, ◌/◌, ◌≡◌, ◌≤◌}
use inference_manager.Router.RouteMap.{model_eq}

abbrev pub million : ℕ
million = 1000000

abbrev pub base_t : ℕ
base_t = 1577836800

-- `float64(sec-baseT) + micro/1000000` with `micro = t.UnixMicro() - sec`, of a time in
-- microseconds after 2020.
unfoldable pub memory_now : ℕ → ℕ
memory_now unix_micro =
    let sec = unix_micro / million in (sec - base_t) * million + (unix_micro - sec)

-- `(rtime[1] - jan_1_2020) + rtime[2] / 1000000`.
unfoldable pub redis_now : ℕ → ℕ
redis_now unix_micro =
    let sec = unix_micro / million in (sec - base_t) * million + unix_micro % million

-- What the clock of the store in memory adds in a wait: each microsecond counts once, and each
-- second that begins counts another 999,999 microseconds.
unfoldable pub moved : ℕ → ℕ → ℕ
moved unix_micro wait = wait + ((unix_micro + wait) / 1000000 - unix_micro / 1000000) * 999999

pub memory_now-moved :
    (unix_micro wait : ℕ)
    → base_t * million ≤ unix_micro
    → memory_now (unix_micro + wait) ≡ memory_now unix_micro + moved unix_micro wait
unfolding memory_now moved
memory_now-moved unix_micro wait h = omega arith

pub memory_now_mono : (a b : ℕ) → a ≤ b → memory_now a ≤ memory_now b
unfolding memory_now
memory_now_mono a b h = omega arith

-- When a number of seconds pass, the clock of the Redis store moves by as many, and that of the
-- store in memory by nearly twice as many: it counts the seconds a second time, as microseconds.
pub memory_now_fast :
    (unix_micro n : ℕ)
    → base_t * million ≤ unix_micro
    → (memory_now (unix_micro + n * million) ≡ memory_now unix_micro + n * (2 * million - 1))
      × (redis_now (unix_micro + n * million) ≡ redis_now unix_micro + n * million)
unfolding memory_now redis_now
memory_now_fast unix_micro n h = (omega arith, omega arith)
