-- ===== src/Rsync.antt =====
-- The worker of worker/rsync, which copies files that it downloads to a storage service.
pub mod Types
pub mod Handler
pub mod Statuses
pub mod Examples
use bmw.Base.{nat_eq, string_eq}
