-- ===== src/Cover.antt =====
-- The worker of worker/cover, which makes covers of images and videos.
pub mod Types
pub mod Files
pub mod Handler
pub mod Trace
pub mod Makers
pub mod Results
pub mod Branches
pub mod Callback
pub mod Examples
use bmw.Base.{nat_eq, string_eq}
