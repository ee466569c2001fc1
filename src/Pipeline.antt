-- ===== src/Pipeline.antt =====
-- From a request to a handler: api.go, queue/go_chan.go, dispatcher.go and worker.go, and the chain
-- of middleware, api/middleware.go.
pub mod Types
pub mod Worker
pub mod Steps
pub mod Handling
pub mod Drain
pub mod Retries
pub mod Pool
pub mod Flow
pub mod Refined
pub mod Chain
pub mod Examples
use bmw.Base.{nat_eq, string_eq}
