-- ===== src/Health.antt =====
-- The health of the phones: the heartbeat of apps/api/src/devices/devices.service.ts and the job of
-- apps/api/src/worker/health-monitor.job.ts. What a heartbeat says is stored only as far as the rows of
-- the model have columns for it; one run has one time `now`.
pub mod Runs
pub mod Location
pub mod Offline
use phone_control.Common.{
  ℕ, ◌+◌, ◌-◌, ◌*◌, Bool, true, false, not, ◌&&◌, ◌||◌, List, [], ◌∷◌, ◌++◌, Option, none, some,
  ◌==◌, ltb, leb, get_or, is_some, if◌then◌else◌, find_first, update_where, keep, any, found_is,
}
use phone_control.Store.Enums.{
  AlertType, AlertStatus, Severity, SecurityEventType, is_open, is_enrolled,
}
use phone_control.Store.Keys.{Key}
use phone_control.Store.{
  Device, Alert, SecurityEvent, Db, M, Reply, done, raised, Error, Message, ◌>>=◌, ◌>>◌, pure,
  throw, skip, read, modify, new_id, send,
}
use phone_control.Settings.{DeviceSettings, NumericKey, resolve_for_device, resolve_for_company}
use phone_control.Alerts.{RaiseAlertInput, is_open_with, raise}

pub record Heartbeat : Type 0 where
  pub battery : Option ℕ
  pub charging : Option Bool
  pub gps : Option Bool
  pub device_owner_active : Option Bool

abbrev pub seen : Heartbeat → (now : ℕ) → Device → Device
seen dto now d = record d {
  last_seen_at = some now;
  device_owner_active = get_or dto.device_owner_active d.device_owner_active;
}

abbrev pub health_alert : Device → AlertType → Severity → Key → RaiseAlertInput
health_alert d type severity key = record {
  company_id = d.company_id;
  type = type;
  severity = severity;
  device_id = some d.id;
  user_id = none;
  depot_id = d.depot_id;
  session_id = none;
  latitude = none;
  longitude = none;
  dedupe_key = some key;
}

unfoldable pub add_health_event :
    (company device : ℕ) → SecurityEventType → Severity → (now : ℕ) → M (Unit {0})
add_health_event company device type severity now = do
  id ← new_id
  modify λ db. record db {
    security_events =
        db.security_events
        ++ record {
          id = id;
          event_id = none;
          company_id = company;
          device_id = device;
          user_id = none;
          session_id = none;
          type = type;
          severity = severity;
          occurred_at = now;
          clock_suspect = false;
        }
          ∷ [];
  }

abbrev pub auto_closed : (now : ℕ) → Alert → Alert
auto_closed now a = record a { status = AlertStatus.auto_closed; resolved_at = some now }

abbrev pub close_key : (company : ℕ) → Key → (now : ℕ) → Db → Db
close_key company key now db = record db {
  alerts = update_where (is_open_with company key) (auto_closed now) db.alerts;
}

unfoldable pub auto_close : (company : ℕ) → Key → (now : ℕ) → M (Unit {0})
auto_close company key now = modify (close_key company key now)

abbrev pub is_true : Option Bool → Bool
is_true (some true) = true
is_true _ = false

abbrev pub is_false : Option Bool → Bool
is_false (some false) = true
is_false _ = false

abbrev pub is_at_most : Option ℕ → ℕ → Bool
is_at_most none n = false
is_at_most (some battery) n = leb battery n

abbrev pub is_above : Option ℕ → ℕ → Bool
is_above none n = false
is_above (some battery) n = ltb n battery

-- The answer of a handler is not needed.
abbrev pub dropping : {A : Type 0} → M A → M (Unit {0})
dropping m = do _ ← m; skip

abbrev pub when : Bool → M (Unit {0}) → M (Unit {0})
when true m = m
when false m = skip

unfoldable pub report_location : Device → (now : ℕ) → M (Unit {0})
unfolding add_health_event
report_location d now = do
  dropping (
      raise (health_alert d AlertType.location_disabled Severity.high (Key.location_disabled d.id)))
  add_health_event d.company_id d.id SecurityEventType.location_disabled Severity.high now

module _ (table : List DeviceSettings) where
  abbrev pub battery_threshold : Device → ℕ
  battery_threshold d =
      (resolve_for_device table d.company_id d.id d.depot_id).numeric
        NumericKey.battery_alert_threshold

  unfoldable pub check_health_alerts : Device → Heartbeat → (now : ℕ) → M (Unit {0})
  unfolding report_location auto_close
  check_health_alerts d dto now = do
    when (is_at_most dto.battery (battery_threshold d) && not (is_true dto.charging)) (
        dropping
          (raise (health_alert d AlertType.battery_low Severity.medium (Key.battery_low d.id))))
    when (is_false dto.gps) (report_location d now)
    when (is_true dto.gps) (auto_close d.company_id (Key.location_disabled d.id) now)
    when (is_above dto.battery (battery_threshold d))
        (auto_close d.company_id (Key.battery_low d.id) now)

  abbrev pub store_seen : (device : ℕ) → Heartbeat → (now : ℕ) → Db → Db
  store_seen device dto now db = record db {
    devices = update_where (λ d. d.id == device) (seen dto now) db.devices;
  }

  -- The answer is the time of the server.
  unfoldable pub heartbeat : (device : ℕ) → Heartbeat → (now : ℕ) → M ℕ
  unfolding check_health_alerts
  heartbeat device dto now = do
    found ← read (λ db. find_first (λ d. d.id == device) db.devices)
    elim found [
      | none ↦ throw Error.record_not_found
      | some d ↦ do
        modify (store_seen device dto now)
        check_health_alerts (seen dto now d) dto now
        send (Message.device_updated device)
        pure now
    ]

abbrev pub offline_limit : List DeviceSettings → (company now : ℕ) → ℕ
offline_limit table company now =
    now
    - (resolve_for_company table company none).numeric NumericKey.offline_alert_delay_minutes
      * 60000

abbrev pub is_silent : (limit : ℕ) → Option ℕ → Bool
is_silent limit none = true
is_silent limit (some t) = ltb t limit

abbrev pub is_offline : (company limit : ℕ) → Device → Bool
is_offline company limit d =
    d.company_id == company
    && not (is_some d.deleted_at)
    && is_enrolled d.enrollment_status
    && not (is_some d.revoked_at)
    && is_silent limit d.last_seen_at

abbrev pub offline_alert : (company : ℕ) → Device → RaiseAlertInput
offline_alert company d = record {
  company_id = company;
  type = AlertType.device_offline;
  severity = Severity.medium;
  device_id = some d.id;
  user_id = none;
  depot_id = d.depot_id;
  session_id = none;
  latitude = d.last_latitude;
  longitude = d.last_longitude;
  dedupe_key = some (Key.device_offline d.id);
}

unfoldable pub report_offline : (company now : ℕ) → List Device → M (Unit {0})
unfolding add_health_event
report_offline company now [] = skip
report_offline company now (d ∷ ds) = do
  dropping (raise (offline_alert company d))
  add_health_event company d.id SecurityEventType.device_offline Severity.medium now
  report_offline company now ds

abbrev pub is_offline_alert : AlertType → Bool
is_offline_alert AlertType.device_offline = true
is_offline_alert _ = false

abbrev pub is_back : (limit : ℕ) → Option ℕ → Bool
is_back limit none = false
is_back limit (some t) = leb limit t

-- `recoveredIds`
abbrev pub has_recovered : (limit : ℕ) → List Device → Option ℕ → Bool
has_recovered limit devices none = false
has_recovered limit devices (some id) =
    any (λ d. d.id == id && is_back limit d.last_seen_at) devices

abbrev pub is_recovered : (company limit : ℕ) → List Device → Alert → Bool
is_recovered company limit devices a =
    a.company_id == company
    && is_offline_alert a.type
    && is_open a.status
    && has_recovered limit devices a.device_id

unfoldable pub close_recovered_alerts : (company limit now : ℕ) → M (Unit {0})
close_recovered_alerts company limit now = modify λ db. record db {
  alerts = update_where (is_recovered company limit db.devices) (auto_closed now) db.alerts;
}

unfoldable pub check_company_health : List DeviceSettings → (company now : ℕ) → M (Unit {0})
unfolding report_offline close_recovered_alerts
check_company_health table company now = do
  offline ← read (λ db. keep (is_offline company (offline_limit table company now)) db.devices)
  report_offline company now offline
  close_recovered_alerts company (offline_limit table company now) now

-- What is thrown for a company is logged.
abbrev pub settled : Reply (Unit {0}) × Db → Reply (Unit {0}) × Db
settled (done u, db) = (done tt, db)
settled (raised e, db) = (done tt, db)

-- `companies`: those that are active and not deleted.
unfoldable pub monitor : List DeviceSettings → (companies : List ℕ) (now : ℕ) → M (Unit {0})
unfolding check_company_health
monitor table [] now = skip
monitor table (c ∷ cs) now = do
  (λ db. settled (check_company_health table c now db))
  monitor table cs now
