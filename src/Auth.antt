-- ===== src/Auth.antt =====
-- Authentication: src/modules/auth and the digits of src/utils.
pub mod Digits
pub mod Otp
pub mod Guard
pub mod Sessions
pub mod Permissions
pub mod Phone
pub mod Invitations
