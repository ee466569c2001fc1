-- ===== src/Image.antt =====
-- Image commands: worker/image/image.go.
pub mod Types
pub mod Parse
pub mod Match
pub mod Items
pub mod Commands
pub mod Odd
pub mod Examples
use bmw.Base.{nat_eq, string_eq}
