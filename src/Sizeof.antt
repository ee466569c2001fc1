-- ===== src/Sizeof.antt =====
-- The size computation of lib/sizeof.go.
pub mod Types
pub mod Internal
pub mod Breaks
pub mod Examples
use bmw.Base.{nat_eq, string_eq}
