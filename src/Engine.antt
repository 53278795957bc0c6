-- ===== src/Engine.antt =====
-- `P` of engine/internal/processor/processor.go: the engine's side of a task, and the engines that
-- it has registered with servers.
use inference_manager.Base.{
  Bool, List, Option, String, [], delete, false, if◌then◌else◌, insert, leb, length, lookup, nat_eq,
  none, not, some, string_eq, true, ℕ, ◌&&◌, ◌||◌, ◌∷◌,
}
use inference_manager.Router.RouteMap.{model_eq}
pub mod Runtimes
pub mod Replies
pub mod Ready

pub record EngineProcessor : Type 0 where
  -- By engine ID: whether it is connected.
  pub active_engines : List (String × Bool)
  pub last_err : Option String
  pub last_heartbeat_time : ℕ
  pub is_shutdown : Bool

-- The start of `NewP`.
abbrev pub new_engine_processor : ℕ → EngineProcessor
new_engine_processor now = record {
  active_engines = [];
  last_err = none;
  last_heartbeat_time = now;
  is_shutdown = false;
}

abbrev pub any_connected : List (String × Bool) → Bool
any_connected [] = false
any_connected ((id, connected) ∷ m) = connected || any_connected m

unfoldable pub is_ready : EngineProcessor → Bool × String
is_ready p =
    if any_connected p.active_engines
    then (true, "")
    else elim p.last_err [ none ↦ (true, "") | some err ↦ (false, err) ]

unfoldable pub add_active_engine : String → EngineProcessor → EngineProcessor
add_active_engine id p = record p { active_engines = insert id false p.active_engines }

unfoldable pub update_active_engine : String → Bool → EngineProcessor → EngineProcessor
update_active_engine id connected p = elim (lookup id p.active_engines) [
  | none ↦ p
  | some c ↦ record p {
    active_engines = insert id connected p.active_engines;
    last_err = if connected then none else p.last_err;
  }
]

unfoldable pub remove_active_engine : String → Option String → EngineProcessor → EngineProcessor
remove_active_engine id err p = record p {
  active_engines = delete id p.active_engines;
  last_err = err;
}

unfoldable pub num_active_engines : EngineProcessor → ℕ
num_active_engines p = length p.active_engines

unfoldable pub update_last_heartbeat_time : ℕ → EngineProcessor → EngineProcessor
update_last_heartbeat_time now p = record p { last_heartbeat_time = now }

-- The decision of `Start` when a runner is asked for.
unfoldable pub creates_runner : EngineProcessor → Bool
unfolding num_active_engines
creates_runner p = not (leb 1 (num_active_engines p)) && not p.is_shutdown

-- The ready flag of a status.
unfoldable pub sent_ready : Bool → EngineProcessor → Bool
sent_ready ready p = ready && not p.is_shutdown

-- The end of `run`: the error that is passed on is that of the ID, which is nil here; the error of
-- `runInternal` has the scope of its own `if`.
unfoldable pub end_run : String → Option String → EngineProcessor → EngineProcessor
unfolding remove_active_engine
end_run id run_err p = remove_active_engine id none p

-- `StartGracefulShutdown`, without the message to the runner.
unfoldable pub start_engine_shutdown : EngineProcessor → EngineProcessor
start_engine_shutdown p = record p { is_shutdown = true }
