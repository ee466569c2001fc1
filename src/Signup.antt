-- ===== src/Signup.antt =====
-- The worker of worker/signup, which delivers messages one after another.
pub mod Deliver
pub mod Order
pub mod Examples
use bmw.Base.{nat_eq, string_eq}
