-- ===== src/Autoscaler/Bounds.antt =====
-- What the scaler writes.
use native.Mathlib.Nat.{mul-pos, div-add-mod, mod-lt, div-eq-sub-div, div-eq_of_lt}
use inference_manager.Base.{
  Option, arith, max, nat_eq, or_else, some, string_eq, subst, ℕ, ◌%◌, ◌*◌, ◌+◌, ◌-◌, ◌/◌, ◌<◌, ◌≡◌,
  ◌≤◌,
}
use inference_manager.Autoscaler.Scaler.{
  Scaler, ScalingConfig, ceil_div, clamp, desired_replicas, max_scale_up, rate_limited, scale,
  wanted, with_grace,
}

-- Where more replicas are wanted than the specification has, and the bound on scaling up, which is
-- taken from the ready replicas, is below the specification, the scaler writes that bound: it
-- scales down.
pub scale_up_lowers :
    (now metrics_val : ℕ) (spec : Option ℕ) (replicas : ℕ) (s : Scaler)
    → or_else spec 0 < (wanted now metrics_val replicas s).1
    → max_scale_up s.config replicas < or_else spec 0
    → (scale now metrics_val spec replicas s).1 ≡ some (max_scale_up s.config replicas)
unfolding scale rate_limited
scale_up_lowers now metrics_val spec replicas s up low = ground (arith, up, low)

zero_ceil : (a b : ℕ) → 0 < b → ceil_div a b ≡ 0 → a ≡ 0
zero_ceil a b p h =
    let n = a + b - 1 in
    let e : b * 0 + n % b ≡ n = subst (λ q. b * q + n % b ≡ n) h (div-add-mod n b) in
    omega (arith, e, mod-lt n p)

ceil_self : (x : ℕ) → 0 < x → ceil_div x x ≡ 1
ceil_self x p =
    let n = x + x - 1 in
    let e : n / x ≡ (n - x) / x + 1 = div-eq-sub-div p (omega (arith, p)) in
    let z : (n - x) / x ≡ 0 = div-eq_of_lt (omega (arith, p)) in omega (arith, e, z)

-- Where each of the ready replicas carries exactly the target, one replica is desired, however
-- many are ready.
pub steady_load :
    (c : ScalingConfig) (replicas : ℕ)
    → 0 < c.target_value
    → 0 < replicas
    → desired_replicas c (replicas * c.target_value) replicas ≡ 1
unfolding desired_replicas
steady_load c replicas t r =
    let m : max replicas 1 ≡ replicas = omega (arith, r) in
    rw m (ceil_self (replicas * c.target_value) (mul-pos r t))

rate_limited-zero :
    (c : ScalingConfig) (replicas spec n : ℕ)
    → 0 < c.max_scale_up_rate
    → rate_limited c replicas spec n ≡ 0
    → n ≡ 0
unfolding rate_limited
rate_limited-zero c replicas spec n u h =
    let p : 0 < max 1 replicas * c.max_scale_up_rate = mul-pos (omega arith) u in
    ground (arith, h, p)

clamp-zero : (c : ScalingConfig) (d : ℕ) → clamp c d ≡ 0 → (d ≡ 0) × (c.min_replicas ≡ 0)
unfolding clamp
clamp-zero c d h = (ground (arith, h), ground (arith, h))

with_grace-zero :
    (now n : ℕ) (s : Scaler)
    → (with_grace now n s).1 ≡ 0
    → (n ≡ 0) × (s.scale_to_zero_grace_period ≤ now - or_else s.last_transit_to_zero now)
unfolding with_grace
with_grace-zero now n s h = (ground (arith, h), ground (arith, h))

-- With a positive target and scale-up rate, zero replicas are written only where the metric is
-- zero, the minimum is zero, and the grace period has passed since zero was first wanted.
pub scale-zero :
    (now metrics_val : ℕ) (spec : Option ℕ) (replicas : ℕ) (s : Scaler)
    → 0 < s.config.target_value
    → 0 < s.config.max_scale_up_rate
    → (scale now metrics_val spec replicas s).1 ≡ some 0
    → (metrics_val ≡ 0)
      × (s.config.min_replicas ≡ 0)
      × (s.scale_to_zero_grace_period ≤ now - or_else s.last_transit_to_zero now)
unfolding scale wanted desired_replicas
scale-zero now metrics_val spec replicas s t u h =
    let d = desired_replicas s.config metrics_val replicas in
    let n = (wanted now metrics_val replicas s).1 in
    let written : rate_limited s.config replicas (or_else spec 0) n ≡ 0 = ground (arith, h) in
    let (c, g) =
      with_grace-zero now (clamp s.config d) s
        (rate_limited-zero s.config replicas (or_else spec 0) n u written) in
    let (dz, mz) = clamp-zero s.config d c in
    let p : 0 < max replicas 1 * s.config.target_value = mul-pos (omega arith) t in
    (zero_ceil metrics_val (max replicas 1 * s.config.target_value) p dz, mz, g)
