-- ===== src/Autoscaler.antt =====
-- engine/internal/autoscaler: the built-in scaler of the model runtimes.
pub mod Scaler
pub mod Bounds
pub mod Registry
