-- ===== src/Rate.antt =====
-- server/internal/rate: the limiter of requests (config.go, limiter.go, store.go and the script
-- gcra_ratelimit.lua).
pub mod Store
pub mod Clock
pub mod Bound
