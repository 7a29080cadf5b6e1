-- ===== src/Devices.antt =====
-- The life of a phone on the server: its enrolment, its tokens and its revocation.
pub mod Tokens
pub mod Runs
pub mod Rotation
pub mod Together
pub mod Enrollment
pub mod SingleUse
pub mod Revocation
