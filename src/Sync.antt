-- ===== src/Sync.antt =====
-- apps/api/src/sync/sync.service.ts: what the phones report. `pull` and the list of badges for
-- offline use are left out.
pub mod Events
pub mod Geofence
pub mod Reports
pub mod Locations
pub mod Push
