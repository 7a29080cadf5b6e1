-- ===== src/Sync/Push.antt =====
-- `push` of apps/api/src/sync/sync.service.ts: one batch of events of a phone.
pub mod Returns
pub mod Positions
pub mod Accounts
use phone_control.Common.{
  ℕ, suc, ◌+◌, Bool, true, false, not, List, [], ◌∷◌, ◌++◌, Option, none, some, ◌==◌, if◌then◌else◌,
  find_first, keep, length, any, ltb,
}
use phone_control.Common.Sort.{sort_by}
use phone_control.Store.{
  Device, Depot, Db, Reply, done, raised, M, Error, ◌>>=◌, ◌>>◌, pure, throw, skip, read,
}
use phone_control.Rules.Schedule.{Calendar}
use phone_control.Sync.Events.{
  SyncEvent, SyncEventKind, geofence, security, barcode_scan, location, precedes, is_location,
  depot_of,
}
use phone_control.Sync.Geofence.{handle_geofence}
use phone_control.Sync.Reports.{handle_security, handle_offline_scan}
use phone_control.Sync.Locations.{insert_locations, report_clock_skew}

-- The events that are acknowledged, and those that are rejected with PROCESSING_ERROR. The other
-- two fields of the answer do not depend on the events.
pub record SyncPushResult : Type 0 where
  pub acked : List ℕ
  pub rejected : List ℕ

-- What a request carries besides the events: the company of its context.
module _ (c : Calendar) (tenant : Option ℕ) (tolerance now : ℕ) where
  handle_as : SyncEventKind → Device → Option Depot → SyncEvent → M (Unit {0})
  handle_as geofence device depot e = handle_geofence c tolerance device depot e now
  handle_as security device depot e = handle_security tolerance device e now
  handle_as barcode_scan device depot e = handle_offline_scan tenant tolerance device e now
  handle_as location device depot e = skip

  unfoldable pub handle_single : Device → Option Depot → SyncEvent → M (Unit {0})
  unfolding handle_as
  handle_single device depot e = handle_as e.kind device depot e

  -- The `try` in the loop.
  abbrev pub note : ℕ → Reply (Unit {0}) → SyncPushResult → SyncPushResult
  note id (done u) r = record r { acked = id ∷ r.acked }
  note id (raised error) r = record r { rejected = id ∷ r.rejected }

  unfoldable pub handle_each : Device → Option Depot → List SyncEvent → M SyncPushResult
  unfolding handle_single
  handle_each device depot [] db = (done (record { acked = []; rejected = [] }), db)
  handle_each device depot (e ∷ es) db =
      let here = handle_single device depot e db in
      (handle_each device depot es >>= λ r. pure (note e.event_id here.0 r)) here.1

  unfoldable pub push_locations : Device → List SyncEvent → M (List ℕ)
  push_locations device [] = pure []
  push_locations device (e ∷ es) = insert_locations tolerance device (e ∷ es) now

  unfoldable pub push_events :
      Device → Option Depot → List SyncEvent → List SyncEvent → M SyncPushResult
  unfolding handle_each push_locations
  push_events device depot events ordered = do
    r ← handle_each device depot (keep (λ e. not (is_location e)) ordered)
    inserted ← push_locations device (keep is_location ordered)
    report_clock_skew tolerance device events now
    pure (record r { acked = r.acked ++ inserted })

  unfoldable pub push : ℕ → List SyncEvent → M SyncPushResult
  unfolding push_events
  push device_id events = do
    found ← read (λ db. find_first (λ d. d.id == device_id) db.devices)
    elim found [
      | none ↦ throw Error.not_found
      | some device ↦ do
        depot ← read (depot_of device)
        push_events device depot events (sort_by precedes events)
    ]
