-- ===== src/Setup.antt =====
-- How a service is put together: multiple.go, single.go, dispatcher.go and worker.go.
pub mod Types
pub mod Build
pub mod Routes
pub mod Started
pub mod Examples
use bmw.Base.{nat_eq, string_eq}
