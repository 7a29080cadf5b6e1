-- ===== src/Rules.antt =====
-- apps/api/src/rules: the pure rules of the server, on hours (Clock, Schedule) and on geofences.
pub mod Clock
pub mod Schedule
pub mod Geofence
