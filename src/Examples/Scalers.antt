-- ===== src/Examples/Scalers.antt =====
-- engine/internal/autoscaler on small inputs, those of builtin_test.go among them.
use inference_manager.Base.{
  List, [], arith, delete, insert, length, lookup, nat_eq, none, or_else, refl, some, string_eq, ℕ,
  ◌-◌, ◌∷◌, ◌≡◌, ◌≤◌,
}
use inference_manager.Autoscaler.Scaler.{
  Scaler, ScalingConfig, clamp, desired_replicas, rate_limited, scale, wanted, with_grace,
}
use inference_manager.Autoscaler.Bounds.{scale-zero}
use inference_manager.Autoscaler.Registry.{
  BuiltinConfig, Event, new_builtin_scaler, on_event, register_scaler, registers, run_events,
  start_loop, starts, unregister_keeps_running, unregister_scaler,
}
use inference_manager.Router.RouteMap.{model_eq}

-- Metrics are in tenths.
abbrev scaling : ScalingConfig
scaling = record {
  target_value = 100;
  max_replicas = 0;
  min_replicas = 0;
  max_scale_up_rate = 3000;
  max_scale_down_rate = 500;
}

abbrev scaler : Scaler
scaler = record {
  model_id = "md-0";
  target = "rt-0";
  config = scaling;
  scale_to_zero_grace_period = 300;
  last_transit_to_zero = none;
}

scales_up : (scale 1000 982 (some 2) 2 scaler).1 ≡ some 5
unfolding scale wanted with_grace clamp desired_replicas rate_limited
scales_up = refl

scales_down : (scale 1000 1463 (some 5) 5 scaler).1 ≡ some 3
unfolding scale wanted with_grace clamp desired_replicas rate_limited
scales_down = refl

abbrev idle : Scaler
idle = record scaler { last_transit_to_zero = some 700 }

to_zero : (scale 1000 0 (some 1) 1 idle).1 ≡ some 0
unfolding scale wanted with_grace clamp desired_replicas rate_limited
to_zero = refl

scale-zero_example :
    (◌≡◌ {A = ℕ} 0 0)
    × (idle.config.min_replicas ≡ 0)
    × (300 ≤ 1000 - or_else idle.last_transit_to_zero 1000)
scale-zero_example = scale-zero 1000 0 (some 1) 1 idle (omega arith) (omega arith) to_zero

-- Six replicas are asked for, of which one is ready; the load wants ten.
more_wanted : (wanted 1000 1000 1 scaler).1 ≡ 10
unfolding wanted with_grace clamp desired_replicas
more_wanted = refl

abbrev builtin : BuiltinConfig
builtin = record {
  scale_to_zero_grace_period = 300;
  runtime_scalers = [];
  default_scaler = scaling;
}

abbrev history : List Event
history = registers "md-0" "rt-0" ∷ starts 0 ∷ []

one_runs : length (run_events history (new_builtin_scaler builtin)).running ≡ 1
unfolding run_events on_event register_scaler start_loop new_builtin_scaler lookup insert delete
one_runs = refl

unregister_keeps_running_example :
    (unregister_scaler "rt-0" (run_events history (new_builtin_scaler builtin))).running
    ≡ (run_events history (new_builtin_scaler builtin)).running
unregister_keeps_running_example = unregister_keeps_running builtin history "rt-0"
