-- ===== src/Engine/Ready.antt =====
-- Runs of the engine's processor, and what `IsReady` tells in them.
use inference_manager.Base.{
  Bool, Bool-cases, List, Option, String, [], arith, inl, inr, lookup, nat_eq, none, refl, some,
  string_eq, true, ℕ, ◌∷◌, ◌≡◌,
}
use inference_manager.Engine.{
  EngineProcessor, add_active_engine, any_connected, end_run, is_ready, new_engine_processor,
  remove_active_engine, start_engine_shutdown, update_active_engine, update_last_heartbeat_time,
}
use inference_manager.Engine.Replies.{EngineTask, Sending, after_task}
use inference_manager.Router.RouteMap.{model_eq}

-- What the goroutines of the processor do to its state, one under the mutex after the other.
pub data EngineEvent : Type 0 where
  -- `run` starts a runner.
  run_starts : String → EngineEvent
  -- `sendEngineStatusPeriodically` has sent a status.
  status_sent : String → EngineEvent
  -- `run` ends with the error of `runInternal`.
  run_ends : String → Option String → EngineEvent
  -- `processTasks` follows a task of the engine, at a time.
  task_ends : ℕ → String → EngineTask → Sending → EngineEvent
  shutdown_starts : EngineEvent

unfoldable pub engine_step : EngineEvent → EngineProcessor → EngineProcessor
unfolding add_active_engine update_active_engine end_run after_task start_engine_shutdown
engine_step (run_starts id) p = add_active_engine id p
engine_step (status_sent id) p = update_active_engine id true p
engine_step (run_ends id err) p = end_run id err p
engine_step (task_ends now id t x) p = after_task now id t x p
engine_step shutdown_starts p = start_engine_shutdown p

unfoldable pub engine_run : List EngineEvent → EngineProcessor → EngineProcessor
unfolding engine_step
engine_run [] p = p
engine_run (e ∷ es) p = engine_run es (engine_step e p)

engine_step-last_err :
    (e : EngineEvent) (p : EngineProcessor) → p.last_err ≡ none → (engine_step e p).last_err ≡ none
unfolding engine_step add_active_engine update_active_engine end_run remove_active_engine after_task
    update_last_heartbeat_time start_engine_shutdown
engine_step-last_err (run_starts id) p h = h
engine_step-last_err (status_sent id) p h = go (lookup id p.active_engines) refl
  where
    go :
        (c : Option Bool)
        → lookup id p.active_engines ≡ c
        → (update_active_engine id true p).last_err ≡ none
    go none q = rw (q, update_active_engine) h
    go (some c) q = rw (q, update_active_engine) refl
engine_step-last_err (run_ends id err) p h = refl
engine_step-last_err (task_ends now id t x) p h = ground (arith, h)
engine_step-last_err shutdown_starts p h = h

engine_run-last_err :
    (es : List EngineEvent) (p : EngineProcessor)
    → p.last_err ≡ none
    → (engine_run es p).last_err ≡ none
unfolding engine_run
engine_run-last_err [] p h = h
engine_run-last_err (e ∷ es) p h =
    engine_run-last_err es (engine_step e p) (engine_step-last_err e p h)

is_ready-no_err : (p : EngineProcessor) → p.last_err ≡ none → is_ready p ≡ (true, "")
unfolding is_ready
is_ready-no_err p h = elim (Bool-cases (any_connected p.active_engines)) [
  | inl k ↦ rw k refl
  | inr k ↦ rw (k, h) refl
]

-- After any events from the start, runs that end with errors included, the processor says that it
-- is ready and gives no reason against it: no event records an error.
pub engine_run-is_ready :
    (now : ℕ) (es : List EngineEvent)
    → is_ready (engine_run es (new_engine_processor now)) ≡ (true, "")
engine_run-is_ready now es =
    is_ready-no_err (engine_run es (new_engine_processor now))
      (engine_run-last_err es (new_engine_processor now) refl)
