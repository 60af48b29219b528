-- ===== src/Apple.antt =====
-- src/apple.rs, the Apple account and the data that Apple's services ask for.
pub mod Account
pub mod Team
pub mod Session
pub mod Anisette
pub mod Code
pub mod Clock
mod Tests
