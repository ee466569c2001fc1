-- ===== src/Limiter.antt =====
-- The rate limiter of the workers, lib/rate_limiter.go.
pub mod Steps
pub mod Bounds
pub mod Examples
use bmw.Base.{nat_eq, string_eq}
