-- ===== src/Beanstalk.antt =====
-- The queue on beanstalk: queue/beanstalk.go.
pub mod Types
pub mod Producer
pub mod Conserved
pub mod Examples
use bmw.Base.{nat_eq, string_eq}
