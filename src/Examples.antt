-- ===== src/Examples.antt =====
-- The theorems at concrete inputs, and runs of the models.
mod Routers
mod Processors
mod Sends
mod Exchange
mod Scalers
mod Limits
mod Runtimes
mod Watchers
mod Events
mod Engines
mod Caches
