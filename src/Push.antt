-- ===== src/Push.antt =====
-- The worker of worker/push, which sends notifications to phones.
pub mod Types
pub mod Services
pub mod Examples
pub mod Handler
pub mod Outcomes
use bmw.Base.{nat_eq, string_eq}
