-- ===== src/Locks.antt =====
-- Small tools of lib/: SpinLock of spinlock.go and LimitRate of sleep_rate_limit.go.
pub mod Spin
pub mod Rate
pub mod Examples
use bmw.Base.{nat_eq, string_eq}
