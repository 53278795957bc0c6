-- ===== src/Infprocessor.antt =====
-- server/internal/infprocessor: the queue of inference tasks, the engines they are sent to, and the
-- results that come back (task.go, infprocessor.go, processing_stats.go).
pub mod Task
pub mod State
pub mod Engines
pub mod Schedule
pub mod Status
pub mod Results
pub mod Send
pub mod History
