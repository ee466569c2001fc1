-- ===== src/Publisher.antt =====
-- The etcd publisher of publisher/etcd.go and service.go.
pub mod Types
pub mod Server
pub mod Quiet
pub mod Examples
use bmw.Base.{nat_eq, string_eq}
