-- ===== src/RateLimit.antt =====
-- crates/http_support/src/rate_limit.rs: the rate limiter in front of the POST handlers.
pub mod Memory
pub mod Resolver
pub mod Middleware
mod Examples
