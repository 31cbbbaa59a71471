-- ===== src/Example.antt =====
-- The programs of example/, which put the packages to use.
pub mod Web
pub mod Stream
pub mod Echo
mod Tests
mod StreamTests
