-- ===== src/Autoscaler/Scaler.antt =====
-- engine/internal/autoscaler/builtin.go: `scale`, and the scaling configuration of config.go. The
-- floats are natural numbers: metrics and targets in a common unit, rates in thousandths.
use inference_manager.Base.{
  Option, String, eqb, if◌then◌else◌, ltb, max, min, nat_eq, none, not, or_else, some, string_eq, ℕ,
  ◌&&◌, ◌*◌, ◌+◌, ◌-◌, ◌/◌,
}

pub record ScalingConfig : Type 0 where
  pub target_value : ℕ
  pub max_replicas : ℕ
  pub min_replicas : ℕ
  pub max_scale_up_rate : ℕ
  pub max_scale_down_rate : ℕ

pub data ScalingError : Type 0 where
  bad_target_value min_above_max bad_scale_up_rate bad_scale_down_rate : ScalingError

-- `ScalingConfig.validate`; numbers here are not negative.
unfoldable pub validate_scaling : ScalingConfig → Option ScalingError
validate_scaling c =
    if eqb c.target_value 0
    then some bad_target_value
    else if not (eqb c.max_replicas 0) && ltb c.max_replicas c.min_replicas
    then some min_above_max
    else if eqb c.max_scale_up_rate 0
    then some bad_scale_up_rate
    else if eqb c.max_scale_down_rate 0
    then some bad_scale_down_rate
    else none

pub record Scaler : Type 0 where
  pub model_id : String
  pub target : String
  pub config : ScalingConfig
  pub scale_to_zero_grace_period : ℕ
  -- `none` is the zero time.
  pub last_transit_to_zero : Option ℕ

abbrev pub thousand : ℕ
thousand = 1000

-- `ceil(a / b)`.
abbrev pub ceil_div : ℕ → ℕ → ℕ
ceil_div a b = (a + b - 1) / b

-- `ceil(metricsVal / max(replicas, 1) / TargetValue)`. The conversion to an int32, which Go leaves
-- open where the ratio is 2^31 or more, is taken as exact.
unfoldable pub desired_replicas : ScalingConfig → ℕ → ℕ → ℕ
desired_replicas c metrics_val replicas = ceil_div metrics_val (max replicas 1 * c.target_value)

-- At least the minimum, and at most the maximum where there is one.
unfoldable pub clamp : ScalingConfig → ℕ → ℕ
clamp c desired =
    let new_replicas = max c.min_replicas desired in
    if ltb 0 c.max_replicas then min new_replicas c.max_replicas else new_replicas

-- The grace period before zero.
unfoldable pub with_grace : ℕ → ℕ → Scaler → Scaler × ℕ
with_grace now new_replicas s =
    let since = or_else s.last_transit_to_zero now in
    if eqb new_replicas 0
    then (
      record s { last_transit_to_zero = some since },
      if ltb (now - since) s.scale_to_zero_grace_period then 1 else 0,
    )
    else (record s { last_transit_to_zero = none }, new_replicas)

abbrev pub max_scale_down : ScalingConfig → ℕ → ℕ
max_scale_down c replicas = replicas * c.max_scale_down_rate / thousand

abbrev pub max_scale_up : ScalingConfig → ℕ → ℕ
max_scale_up c replicas = ceil_div (max 1 replicas * c.max_scale_up_rate) thousand

unfoldable pub rate_limited : ScalingConfig → ℕ → ℕ → ℕ → ℕ
rate_limited c replicas spec_replicas new_replicas =
    if ltb new_replicas spec_replicas
    then max new_replicas (max_scale_down c replicas)
    else if ltb spec_replicas new_replicas
    then min new_replicas (max_scale_up c replicas)
    else new_replicas

-- What the metrics ask for, before the rates.
unfoldable pub wanted : ℕ → ℕ → ℕ → Scaler → Scaler × ℕ
wanted now metrics_val replicas s =
    with_grace now (clamp s.config (desired_replicas s.config metrics_val replicas)) s

-- `scale`: the replicas that are written to the stateful set, and `none` where nothing is written.
-- A missing number in its specification reads as 0.
unfoldable pub scale : ℕ → ℕ → Option ℕ → ℕ → Scaler → Scaler × Option ℕ
scale now metrics_val spec replicas s =
    let (s', n) = wanted now metrics_val replicas s in
    let m = rate_limited s.config replicas (or_else spec 0) n in
    (s', if eqb m (or_else spec 0) then none else some m)
