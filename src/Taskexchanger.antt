-- ===== src/Taskexchanger.antt =====
-- server/internal/taskexchanger: servers exchange tasks, so that a task reaches an engine that is
-- connected to another server.
pub mod Sender
pub mod Receiver
pub mod Exchanger
