-- ===== src/Login.antt =====
-- apps/api/src/auth/barcode-auth.service.ts: a driver opens a session with a badge. The texts of an
-- answer, the metadata of an event and the address of the caller are left out; one login has one
-- time `now`.
pub mod Effects
pub mod Steps
pub mod Runs
pub mod Refusals
pub mod Granted
pub mod Badges
pub mod Outcome
pub mod Sessions
pub mod Unique
pub mod Lockouts
use phone_control.Common.{
  ℕ, ◌+◌, ◌*◌, ◌/◌, ◌≡◌, Bool, true, false, ◌&&◌, ◌||◌, List, [], ◌∷◌, ◌++◌, Option, none, some,
  map, not, ◌==◌, ltb, leb, get_or, if◌then◌else◌, find_first, update_where, any, is_some,
}
use phone_control.Rules.Clock.{Text}
use phone_control.Rules.Geofence.{SessionState}
use phone_control.Store.Enums.{
  SessionStatus, SessionEndReason, DeviceState, BadgeStatus, BarcodeScanResult, AlertType, Severity,
  SecurityEventType, is_active_session, is_active_user, is_active_badge, is_enrolled,
}
use phone_control.Store.Keys.{Key}
use phone_control.Store.{
  Device, Session, User, Badge, DeviceAssignment, BarcodeScanEvent, SecurityEvent, Db, M, Error,
  ◌>>=◌, ◌>>◌, pure, throw, skip, read, modify, new_id, transaction,
}
use phone_control.Alerts.{RaiseAlertInput, raise}
use phone_control.Commands.{is_active_on, close_session}
use phone_control.Settings.{DeviceSettings, NumericKey, resolve_for_device}
use phone_control.Limiter.{Redis, BarcodeLimits}
use phone_control.BadgeHash.{Described}

pub record BarcodeAuth : Type 0 where
  pub barcode : Text
  pub device_id : ℕ
  pub scanned_at : Option ℕ
  pub latitude : Option ℕ
  pub longitude : Option ℕ

pub data DenialReason : Type 0 where
  badge_denied device_not_authorized device_unavailable rate_limited : DenialReason

pub data Response : Type 0 where
  granted : (user : ℕ) → Session → Response
  denied : DenialReason → (retry_after_seconds : Option ℕ) → Response

-- The two keys of `company.settings` that are read; `none` is anything but a Boolean.
pub record CompanySettings : Type 0 where
  pub detailed_denial_messages : Option Bool
  pub require_device_assignment : Option Bool

-- What the service is built on: Redis, the configuration, the hash of a badge, the tables that only
-- this service and the settings read, and the company of the context.
pub record Site (ρ : Type 0) : Type 0 where
  pub redis : Redis ρ
  pub limits : BarcodeLimits
  pub describe : Text → Option Described
  pub device_settings : List DeviceSettings
  pub company_settings : ℕ → CompanySettings
  pub context_company : Option ℕ

abbrev pub scan_time : BarcodeAuth → ℕ → ℕ
scan_time dto now = get_or dto.scanned_at now

-- `date.toISOString().slice(0, 13)`
abbrev pub hour_bucket : ℕ → ℕ
hour_bucket instant = instant / 3600000

abbrev pub is_rate_limited : DenialReason → Bool
is_rate_limited rate_limited = true
is_rate_limited _ = false

-- A number counts as false when it is 0.
abbrev pub positive : Option ℕ → Option ℕ
positive none = none
positive (some seconds) = if ltb 0 seconds then some seconds else none

unfoldable pub deny_response : DenialReason → (detailed : Bool) → Option ℕ → Response
deny_response reason detailed retry =
    denied (if detailed || is_rate_limited reason then reason else badge_denied) (positive retry)

-- What the calls of `recordScan` tell apart.
pub record Scan : Type 0 where
  pub badge_id : Option ℕ
  pub user_id : Option ℕ
  pub session_id : Option ℕ
  pub result : BarcodeScanResult
  pub hash : Option ℕ

abbrev pub scan_row :
    (id company device : ℕ) → Scan → BarcodeAuth → (scanned_at : ℕ) → BarcodeScanEvent
scan_row id company device scan dto scanned_at = record {
  id = id;
  event_id = none;
  company_id = company;
  device_id = device;
  badge_id = scan.badge_id;
  user_id = scan.user_id;
  session_id = scan.session_id;
  barcode_hash = scan.hash;
  result = scan.result;
  scanned_at = scanned_at;
  latitude = dto.latitude;
  longitude = dto.longitude;
  offline = false;
  clock_suspect = false;
}

unfoldable pub record_scan : (company device : ℕ) → Scan → BarcodeAuth → ℕ → M (Unit {0})
record_scan company device scan dto scanned_at = do
  id ← new_id
  modify λ db. record db {
    scan_events = db.scan_events ++ scan_row id company device scan dto scanned_at ∷ [];
  }

unfoldable pub record_login_event :
    (company device : ℕ) (user : Option ℕ)
    → SecurityEventType
    → Severity
    → (session : Option ℕ) (now : ℕ) → M (Unit {0})
record_login_event company device user type severity session now = do
  id ← new_id
  modify λ db. record db {
    security_events =
        db.security_events
        ++ record {
          id = id;
          event_id = none;
          company_id = company;
          device_id = device;
          user_id = user;
          session_id = session;
          type = type;
          severity = severity;
          occurred_at = now;
          clock_suspect = false;
        }
          ∷ [];
  }

-- The alerts of this service.
abbrev pub login_alert :
    (company device : ℕ) (user depot : Option ℕ) → AlertType → Severity → Key → RaiseAlertInput
login_alert company device user depot type severity key = record {
  company_id = company;
  type = type;
  severity = severity;
  device_id = some device;
  user_id = user;
  depot_id = depot;
  session_id = none;
  latitude = none;
  longitude = none;
  dedupe_key = some key;
}

abbrev pub is_usable : Device → Bool
is_usable d =
    not (is_some d.deleted_at) && is_enrolled d.enrollment_status && not (is_some d.revoked_at)

abbrev pub has_hash : (company hash : ℕ) → Badge → Bool
has_hash company hash b = b.company_id == company && b.barcode_hash == hash

abbrev pub is_revoked_badge : BadgeStatus → Bool
is_revoked_badge BadgeStatus.revoked = true
is_revoked_badge _ = false

abbrev pub until_after : Option ℕ → ℕ → Bool
until_after none now = true
until_after (some t) now = ltb now t

abbrev pub assigns : (company user device now : ℕ) → DeviceAssignment → Bool
assigns company user device now a =
    a.company_id == company
    && a.user_id == user
    && a.device_id == device
    && not (is_some a.revoked_at)
    && leb a.valid_from now
    && until_after a.valid_until now

abbrev pub is_active_of : ℕ → Session → Bool
is_active_of user s = s.user_id == user && is_active_session s.status

abbrev pub replaced : ℕ → Session → Session
replaced now = close_session SessionStatus.ended SessionEndReason.new_session now

abbrev pub new_session : (id : ℕ) (device : Device) (badge : Badge) (now expires_at : ℕ) → Session
new_session id device badge now expires_at = record {
  id = id;
  company_id = device.company_id;
  user_id = badge.user_id;
  device_id = device.id;
  depot_id = device.depot_id;
  badge_id = some badge.id;
  started_at = now;
  expires_at = expires_at;
  ended_at = none;
  end_reason = none;
  status = SessionStatus.active;
  state = SessionState.active;
  returned_at = none;
  returned_latitude = none;
  returned_longitude = none;
  returned_accuracy = none;
  offline_validated_at = none;
}

-- The two `updateMany` of the transaction.
abbrev pub close_previous : (device user now : ℕ) → List Session → List Session
close_previous device user now sessions =
    update_where (is_active_of user) (replaced now)
      (update_where (is_active_on device) (replaced now) sessions)

-- `session.create` under the indexes sessions_active_per_device_uidx and …_per_user_uidx.
abbrev pub occupies : Session → Session → Bool
occupies new s = is_active_on new.device_id s || is_active_of new.user_id s

unfoldable pub create_session : Session → M (Unit {0})
create_session s = do
  conflict ← read (λ db. any (occupies s) db.sessions)
  if conflict
      then throw Error.unique_violation
      else modify (λ db. record db { sessions = db.sessions ++ s ∷ [] })

abbrev pub activate_device : (device now : ℕ) → Db → Db
activate_device device now db = record db {
  devices =
      update_where (λ d. d.id == device)
        (λ d. record d { state = DeviceState.active; last_seen_at = some now }) db.devices;
}

-- The transaction; the row of the device was found before.
unfoldable pub open_session : Device → Badge → (now expires_at : ℕ) → M Session
unfolding create_session
open_session device badge now expires_at = transaction do
  modify λ db. record db { sessions = close_previous device.id badge.user_id now db.sessions }
  id ← new_id
  create_session (new_session id device badge now expires_at)
  modify (activate_device device.id now)
  pure (new_session id device badge now expires_at)
