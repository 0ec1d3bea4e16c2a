-- ===== src/Http.antt =====
-- pkg/httputil: the router and its middleware.
pub mod Router
pub mod Cache
pub mod Middleware
pub mod Role
pub mod Jq
pub mod Client
mod Examples
