-- ===== src/Sse.antt =====
-- Package sse: the event frames that the server side writes, its registry of connections, and the
-- client that parses the frames and retries.
pub mod Text
pub mod Server
pub mod Run
pub mod Client
pub mod Lines
pub mod RoundTrip
mod Tests
mod RunTests
