-- ===== src/Resource.antt =====
-- The worker of worker/resource, which makes derived files of a resource and uploads them.
pub mod Types
pub mod Bucket
pub mod Generate
pub mod Job
pub mod Tree
pub mod Requests
pub mod Table
pub mod Queries
pub mod Bits
pub mod Done
pub mod Uploads
pub mod Failure
pub mod Callbacks
pub mod Examples
use bmw.Base.{nat_eq, string_eq}
