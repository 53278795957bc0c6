-- ===== src/Runtime.antt =====
-- engine/internal/runtime: the runtimes of the models on an engine, and the state machine that
-- pulls, deploys, watches and deletes them.
pub mod AddressSet
pub mod Events
pub mod Manager
pub mod World
pub mod Pull
pub mod Lifecycle
pub mod Readiness
pub mod Lora
pub mod Machine
