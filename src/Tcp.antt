-- ===== src/Tcp.antt =====
-- Package tcp: endpoints over connections, the table of endpoints, the client and the server.
pub mod Endpoint
pub mod Manager
pub mod Client
pub mod Server
mod Tests
mod ServerTests
