-- ===== src/Http.antt =====
-- The HTTP calls that the workers make: lib/http.go.
pub mod Types
pub mod Request
pub mod Fetch
pub mod Traces
pub mod Ends
pub mod Examples
use bmw.Base.{nat_eq, string_eq}
