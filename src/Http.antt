-- ===== src/Http.antt =====
-- Package http: the response wrapper, the middleware chain, the route registry and the server.
pub mod Response
pub mod Middleware
pub mod Pattern
pub mod Registry
pub mod Context
pub mod Static
pub mod Embed
pub mod Env
pub mod Errors
pub mod Url
pub mod Redirect
pub mod Proxy
pub mod Upload
pub mod Stack
pub mod Recovery
pub mod Server
mod RegistryTests
mod TableTests
mod Tests
mod FileTests
mod SharedTests
mod StaticTests
mod RouteTests
mod StackTests
