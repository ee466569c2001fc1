-- ===== src/Relation.antt =====
-- The worker of worker/relation, which matches the friends that users have in other apps.
pub mod Types
pub mod User
pub mod Registry
pub mod Match
pub mod Api
pub mod Uids
pub mod Resolve
pub mod Input
pub mod Handled
pub mod Invariant
pub mod Preserved
pub mod Reachable
pub mod Checked
pub mod Reports
pub mod Writes
pub mod Mutual
pub mod Unbind
pub mod Durable
pub mod Served
pub mod Restart
pub mod Examples
use bmw.Base.{nat_eq, string_eq}
