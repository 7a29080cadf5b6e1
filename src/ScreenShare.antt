-- ===== src/ScreenShare.antt =====
-- apps/api/src/screen-share: screen sharing with the driver's consent.
pub mod Rules
pub mod Service
