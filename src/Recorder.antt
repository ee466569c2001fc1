-- ===== src/Recorder.antt =====
-- The recorder of worker/recorder/main.go, which writes the messages of a topic to a file and stores it.
pub mod Types
pub mod Server
pub mod Book
pub mod Owners
pub mod Kept
pub mod Refines
pub mod Uploads
pub mod Examples
use bmw.Base.{nat_eq, string_eq}
