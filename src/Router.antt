-- ===== src/Router.antt =====
-- server/internal/router: which engines serve a model (route_map.go, router.go).
pub mod RouteMap
pub mod Table
pub mod Load
pub mod LeastLoaded
pub mod Valid
pub mod Changes
pub mod Tenants
pub mod Routing
