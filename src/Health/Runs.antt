-- ===== src/Health/Runs.antt =====
-- What the steps of a heartbeat come to.
use phone_control.Common.{
  ℕ, ◌≡◌, refl, Bool, true, false, ◌&&◌, not, List, [], ◌∷◌, ◌++◌, if◌then◌else◌, some, find_first,
  ◌==◌,
}
use phone_control.Store.Enums.{AlertType, Severity, SecurityEventType}
use phone_control.Store.Keys.{Key}
use phone_control.Store.{Device, Db, M, done, continue-done, Message}
use phone_control.Alerts.{RaiseAlertInput, raise}
use phone_control.Alerts.Effects.{raise-Spares}
use phone_control.Settings.{DeviceSettings}
use phone_control.Health.{
  Heartbeat, seen, health_alert, add_health_event, close_key, auto_close, is_true, is_false,
  is_at_most, is_above, dropping, when, battery_threshold, report_location, check_health_alerts,
  store_seen, heartbeat,
}

pub dropping-raise :
    (input : RaiseAlertInput) (db : Db) → dropping (raise input) db ≡ (done tt, (raise input db).1)
dropping-raise input db =
    let (a, e) = (raise-Spares input db).0 in
    continue-done (raise input db) a (λ a db. (done tt, db)) e

abbrev pub if_so : Bool → (Db → Db) → Db → Db
if_so b f db = if b then f db else db

when_run :
    (b : Bool) (m : M (Unit {0})) (f : Db → Db) (db : Db)
    → m db ≡ (done tt, f db)
    → when b m db ≡ (done tt, if_so b f db)
when_run true m f db e = e
when_run false m f db e = refl

module _ (table : List DeviceSettings) (d : Device) (dto : Heartbeat) (now : ℕ) where
  abbrev pub raise_battery : Db → Db
  raise_battery db =
      (raise (health_alert d AlertType.battery_low Severity.medium (Key.battery_low d.id)) db).1

  abbrev pub location_alert : RaiseAlertInput
  location_alert =
      health_alert d AlertType.location_disabled Severity.high (Key.location_disabled d.id)

  abbrev pub raise_location : Db → Db
  raise_location db =
      (add_health_event d.company_id d.id SecurityEventType.location_disabled Severity.high now
        (raise location_alert db).1).1

  report_location_run : (db : Db) → report_location d now db ≡ (done tt, raise_location db)
  unfolding report_location add_health_event
  report_location_run db = rw (dropping-raise location_alert db) refl

  abbrev pub is_low : Bool
  is_low = is_at_most dto.battery (battery_threshold table d) && not (is_true dto.charging)

  abbrev pub is_charged : Bool
  is_charged = is_above dto.battery (battery_threshold table d)

  -- The four steps, one after the other.
  abbrev pub checked : Db → Db
  checked db = if_so is_charged (close_key d.company_id (Key.battery_low d.id) now) (
      if_so (is_true dto.gps) (close_key d.company_id (Key.location_disabled d.id) now)
        (if_so (is_false dto.gps) raise_location (if_so is_low raise_battery db)))

  check_health_alerts_run :
      (db : Db) → check_health_alerts table d dto now db ≡ (done tt, checked db)
  unfolding check_health_alerts auto_close
  check_health_alerts_run db =
      let one = if_so is_low raise_battery db in
      let two = if_so (is_false dto.gps) raise_location one in
      let three =
        if_so (is_true dto.gps) (close_key d.company_id (Key.location_disabled d.id) now) two in
      rw (check_health_alerts, when_run is_low _ raise_battery db (dropping-raise _ db))
        (rw (when_run (is_false dto.gps) _ raise_location one (report_location_run one)) (
          rw
            (when_run (is_true dto.gps) _ (close_key d.company_id (Key.location_disabled d.id) now)
              two refl)
            (when_run is_charged _ (close_key d.company_id (Key.battery_low d.id) now) three refl)))

pub heartbeat_run :
    (table : List DeviceSettings) (device : ℕ) (dto : Heartbeat) (now : ℕ) (db : Db) (d : Device)
    → find_first (λ d. d.id == device) db.devices ≡ some d
    → let after = checked table (seen dto now d) dto now (store_seen table device dto now db) in
      heartbeat table device dto now db
      ≡ (done now, record after { outbox = after.outbox ++ Message.device_updated device ∷ [] })
unfolding heartbeat
heartbeat_run table device dto now db d found =
    rw (found, heartbeat)
      (rw
        (check_health_alerts_run table (seen dto now d) dto now
          (store_seen table device dto now db))
        refl)
