-- ===== src/Autoscaler/Registry.antt =====
-- The registry of the scalers (`Register` and `Unregister`, engine/internal/autoscaler/builtin.go).
use inference_manager.Base.{
  List, Option, Option-cases, String, [], ap, arith, delete, inl, inr, insert, lookup,
  lookup-delete, lookup-insert, nat_eq, none, or_else, refl, some, string_eq, ℕ, ◌+◌, ◌∷◌, ◌≡◌,
}
use inference_manager.Autoscaler.Scaler.{Scaler, ScalingConfig}

pub record BuiltinConfig : Type 0 where
  pub scale_to_zero_grace_period : ℕ
  pub runtime_scalers : List (String × ScalingConfig)
  pub default_scaler : ScalingConfig

-- A scaler with its `cancel` function, where it is set: the number of the loop that it stops.
pub record Registered : Type 0 where
  pub scaler : Scaler
  pub cancel : Option ℕ

pub record BuiltinScaler : Type 0 where
  pub config : BuiltinConfig
  -- By the name of the stateful set. The map holds copies.
  pub scalers : List (String × Registered)
  -- The scalers of the goroutines by a number of their own: those that wait for the start, and those
  -- that run.
  pub waiting : List (ℕ × Registered)
  pub running : List (ℕ × Registered)
  pub next_loop : ℕ

unfoldable pub new_builtin_scaler : BuiltinConfig → BuiltinScaler
new_builtin_scaler c = record {
  config = c;
  scalers = [];
  waiting = [];
  running = [];
  next_loop = 0;
}

abbrev pub new_scaler : BuiltinConfig → String → String → Registered
new_scaler c model_id target = record {
  scaler = record {
    model_id = model_id;
    target = target;
    config = or_else (lookup model_id c.runtime_scalers) c.default_scaler;
    scale_to_zero_grace_period = c.scale_to_zero_grace_period;
    last_transit_to_zero = none;
  };
  cancel = none;
}

unfoldable pub register_scaler : String → String → BuiltinScaler → BuiltinScaler
register_scaler model_id target m = elim (lookup target m.scalers) [
  | some _ ↦ m
  | none ↦ record m {
    scalers = insert target (new_scaler m.config model_id target) m.scalers;
    waiting = (m.next_loop, new_scaler m.config model_id target) ∷ m.waiting;
    next_loop = m.next_loop + 1;
  }
]

-- `scaler.start` on the variable of the goroutine: it sets `cancel` there, and runs.
unfoldable pub start_loop : ℕ → BuiltinScaler → BuiltinScaler
start_loop i m = elim (lookup i m.waiting) [
  | none ↦ m
  | some r ↦ record m {
    waiting = delete i m.waiting;
    running = insert i (record r { cancel = some i }) m.running;
  }
]

-- `scaler.stop`.
abbrev pub stop_loop : Option ℕ → List (ℕ × Registered) → List (ℕ × Registered)
stop_loop none loops = loops
stop_loop (some i) loops = delete i loops

-- `Unregister`: `stop` on the copy of the map.
unfoldable pub unregister_scaler : String → BuiltinScaler → BuiltinScaler
unregister_scaler target m = elim (lookup target m.scalers) [
  | none ↦ m
  | some r ↦ record m { scalers = delete target m.scalers; running = stop_loop r.cancel m.running }
]

pub data Event : Type 0 where
  registers : String → String → Event
  starts : ℕ → Event
  unregisters : String → Event

unfoldable pub on_event : Event → BuiltinScaler → BuiltinScaler
on_event (registers model_id target) m = register_scaler model_id target m
on_event (starts i) m = start_loop i m
on_event (unregisters target) m = unregister_scaler target m

unfoldable pub run_events : List Event → BuiltinScaler → BuiltinScaler
run_events [] m = m
run_events (e ∷ es) m = run_events es (on_event e m)

-- No copy of the map has a `cancel` function.
NoCancel : BuiltinScaler → Type 0
NoCancel m = (t : String) (r : Registered) → lookup t m.scalers ≡ some r → r.cancel ≡ none

unregister_running :
    (target : String) (m : BuiltinScaler)
    → NoCancel m
    → (unregister_scaler target m).running ≡ m.running
unfolding unregister_scaler NoCancel
unregister_running target m v = elim (Option-cases (lookup target m.scalers)) [
  | inl h ↦ rw (unregister_scaler, h) refl
  | inr (r, h) ↦ rw (unregister_scaler, h) (ap (λ c. stop_loop c m.running) (v target r h))
]

register-NoCancel :
    (model_id target : String) (m : BuiltinScaler)
    → NoCancel m
    → NoCancel (register_scaler model_id target m)
unfolding NoCancel register_scaler
register-NoCancel model_id target m v t r h =
    ground (arith, h, v t r, lookup-insert t target (new_scaler m.config model_id target) m.scalers)

start-NoCancel : (i : ℕ) (m : BuiltinScaler) → NoCancel m → NoCancel (start_loop i m)
unfolding NoCancel start_loop
start-NoCancel i m v t r h = ground (arith, h, v t r)

unregister-NoCancel :
    (target : String) (m : BuiltinScaler) → NoCancel m → NoCancel (unregister_scaler target m)
unfolding NoCancel unregister_scaler
unregister-NoCancel target m v t r h = ground (arith, h, v t r, lookup-delete t target m.scalers)

events-NoCancel : (es : List Event) (m : BuiltinScaler) → NoCancel m → NoCancel (run_events es m)
unfolding run_events on_event
events-NoCancel [] m v = v
events-NoCancel (registers model_id target ∷ es) m v =
    events-NoCancel es _ (register-NoCancel model_id target m v)
events-NoCancel (starts i ∷ es) m v = events-NoCancel es _ (start-NoCancel i m v)
events-NoCancel (unregisters target ∷ es) m v =
    events-NoCancel es _ (unregister-NoCancel target m v)

-- After any events from the start, unregistering a scaler stops no loop that runs: the cancel
-- function is set on the variable of the goroutine, and the copy in the map has none.
pub unregister_keeps_running :
    (c : BuiltinConfig) (es : List Event) (target : String)
    → (unregister_scaler target (run_events es (new_builtin_scaler c))).running
      ≡ (run_events es (new_builtin_scaler c)).running
unfolding new_builtin_scaler NoCancel lookup
unregister_keeps_running c es target =
    unregister_running target (run_events es (new_builtin_scaler c))
      (events-NoCancel es (new_builtin_scaler c) (λ t r h. cc h))
