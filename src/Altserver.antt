-- ===== src/Altserver.antt =====
-- src/altserver.rs, the server that AltStore talks to.
pub mod Identity
pub mod Frame
pub mod Services
pub mod Handlers
pub mod Connection
pub mod Session
pub mod Startup
pub mod Link
mod Tests
