-- ===== src/Commands.antt =====
-- src/main.rs, the commands that act on the phone and their arguments.
pub mod Phone
pub mod Renew
pub mod Account
pub mod Main
pub mod Profiles
pub mod Arguments
mod Tests
