-- ===== src/Profile.antt =====
-- src/profile.rs, the provisioning profiles on the phone.
pub mod Parse
pub mod Latest
mod Tests
