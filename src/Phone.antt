-- ===== src/Phone.antt =====
-- src/phone.rs, the search for the phone and the connection to it.
pub mod Address
pub mod Discover
pub mod Link
pub mod Usb
pub mod Connect
mod Tests
