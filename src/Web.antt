-- ===== src/Web.antt =====
-- src/web.rs: the web interface.
pub mod Base64
pub mod Compare
pub mod Access
pub mod Jobs
pub mod Views
pub mod Texts
pub mod History
pub mod Work
pub mod State
pub mod Server
mod Tests
