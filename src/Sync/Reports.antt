-- ===== src/Sync/Reports.antt =====
-- `handleSecurity` and `handleOfflineScan` of apps/api/src/sync/sync.service.ts.
pub mod Revocation
use phone_control.Common.{
  ℕ, suc, ◌+◌, Bool, true, false, ◌&&◌, List, [], ◌∷◌, ◌++◌, Option, none, some, ◌==◌, get_or,
  is_some, if◌then◌else◌, find_first, any, update_where, found_is,
}
use phone_control.Store.Enums.{
  Severity, AlertType, SecurityEventType, CommandType, BarcodeScanResult, SessionEndReason,
  is_active_session, is_active_badge, is_active_user,
}
use phone_control.Store.Keys.{Key}
use phone_control.Store.{
  Device, Session, Badge, User, Alert, DeviceCommand, SecurityEvent, BarcodeScanEvent, Db, M, Error,
  ◌>>=◌, ◌>>◌, pure, throw, skip, read, modify, new_id, send,
}
use phone_control.Alerts.{RaiseAlertInput, raise}
use phone_control.Commands.{EnqueueParams, enqueue}
use phone_control.Sessions.{end, update_session}
use phone_control.Sync.Events.{SyncEvent, is_clock_suspect}

-- `skipDuplicates`: the row is not inserted if its event is there.
abbrev pub insert_security_event : (event_id : ℕ) → SecurityEvent → Db → Db
insert_security_event event_id r db = record db {
  security_events =
      if any (λ x. found_is x.event_id event_id) db.security_events
      then db.security_events
      else db.security_events ++ r ∷ [];
}

abbrev pub phone_event : ℕ → Device → SyncEvent → SecurityEventType → (id now : ℕ) → SecurityEvent
phone_event tolerance device e type id now = record {
  id = id;
  event_id = some e.event_id;
  company_id = device.company_id;
  device_id = device.id;
  user_id = none;
  session_id = e.session_id;
  type = type;
  severity = get_or e.severity Severity.low;
  occurred_at = e.occurred_at;
  clock_suspect = is_clock_suspect tolerance e.occurred_at now;
}

-- The array `critical`.
abbrev pub is_critical_type : SecurityEventType → Bool
is_critical_type SecurityEventType.root_detected = true
is_critical_type SecurityEventType.device_owner_lost = true
is_critical_type SecurityEventType.app_integrity_failed = true
is_critical_type SecurityEventType.clock_tampering = true
is_critical_type SecurityEventType.kiosk_exit_attempt = true
is_critical_type _ = false

unfoldable pub raise_tampering : Device → Severity → Key → M Alert
raise_tampering device severity key = raise record {
  company_id = device.company_id;
  type = AlertType.device_tampering;
  severity = severity;
  device_id = some device.id;
  user_id = none;
  depot_id = device.depot_id;
  session_id = none;
  latitude = none;
  longitude = none;
  dedupe_key = some key;
}

abbrev pub ignore : {A : Type 0} → M A → M (Unit {0})
ignore m = m >>= λ _. skip

unfoldable pub record_security : ℕ → Device → SyncEvent → SecurityEventType → ℕ → M (Unit {0})
unfolding raise_tampering
record_security tolerance device e type now = do
  id ← new_id
  modify (insert_security_event e.event_id (phone_event tolerance device e type id now))
  if is_critical_type type
      then ignore (raise_tampering device Severity.critical (Key.security device.id type))
      else skip

unfoldable pub handle_security : ℕ → Device → SyncEvent → ℕ → M (Unit {0})
unfolding record_security
handle_security tolerance device e now = elim e.security_type [
  | none ↦ skip
  | some type ↦ record_security tolerance device e type now
]

abbrev pub insert_scan : (event_id : ℕ) → BarcodeScanEvent → Db → Db
insert_scan event_id r db = record db {
  scan_events =
      if any (λ x. found_is x.event_id event_id) db.scan_events
      then db.scan_events
      else db.scan_events ++ r ∷ [];
}

abbrev pub offline_scan : ℕ → Device → SyncEvent → (id now : ℕ) → BarcodeScanEvent
offline_scan tolerance device e id now = record {
  id = id;
  event_id = some e.event_id;
  company_id = device.company_id;
  device_id = device.id;
  badge_id = none;
  user_id = none;
  session_id = e.session_id;
  barcode_hash = none;
  result = BarcodeScanResult.offline_granted;
  scanned_at = e.occurred_at;
  latitude = e.latitude;
  longitude = e.longitude;
  offline = true;
  clock_suspect = is_clock_suspect tolerance e.occurred_at now;
}

-- `session.badge?.status === ACTIVE && session.user.status === ACTIVE`
abbrev pub badge_is_active : Option Badge → Bool
badge_is_active none = false
badge_is_active (some b) = is_active_badge b.status

abbrev pub user_is_active : Option User → Bool
user_is_active none = false
user_is_active (some u) = is_active_user u.status

abbrev pub is_still_valid : Session → Db → Bool
is_still_valid s db =
    badge_is_active (find_first (λ b. found_is s.badge_id b.id) db.badges)
    && user_is_active (find_first (λ u. u.id == s.user_id) db.users)

abbrev pub lock_order : Device → Session → EnqueueParams
lock_order device s = record {
  company_id = device.company_id;
  device_id = device.id;
  command = CommandType.lock_device;
  ttl_minutes = none;
  created_by = none;
  idempotency_key = some (Key.offline_revalidation s.id);
  priority = some 100;
}

abbrev pub revocation_alert : Device → Session → RaiseAlertInput
revocation_alert device s = record {
  company_id = device.company_id;
  type = AlertType.unauthorized_user;
  severity = Severity.high;
  device_id = some device.id;
  user_id = some s.user_id;
  depot_id = device.depot_id;
  session_id = none;
  latitude = none;
  longitude = none;
  dedupe_key = some (Key.offline_revalidation s.id);
}

-- What happens to a session whose badge or user is no longer active.
unfoldable pub revoke_offline : Option ℕ → Device → Session → ℕ → M (Unit {0})
revoke_offline tenant device s now = do
  end tenant s.id SessionEndReason.offline_revalidation_failed now
  _ ← enqueue (lock_order device s) now
  ignore (raise (revocation_alert device s))

unfoldable pub revalidate : Option ℕ → Device → Session → ℕ → M (Unit {0})
unfolding revoke_offline
revalidate tenant device s now = do
  valid ← read (is_still_valid s)
  if valid
      then modify (update_session s.id (λ x. record x { offline_validated_at = some now }))
      else revoke_offline tenant device s now

-- The session that the event names, if it is active on the phone.
abbrev pub is_named : ℕ → ℕ → Session → Bool
is_named device id s = s.id == id && s.device_id == device

unfoldable pub revalidate_named : Option ℕ → Device → ℕ → ℕ → M (Unit {0})
unfolding revalidate
revalidate_named tenant device id now = do
  found ← read (λ db. find_first (is_named device.id id) db.sessions)
  elim found [
    | none ↦ skip
    | some s ↦ if is_active_session s.status then revalidate tenant device s now else skip
  ]

-- `tenant` is the company of the request, which `sessions.end` is limited to.
unfoldable pub handle_offline_scan : Option ℕ → ℕ → Device → SyncEvent → ℕ → M (Unit {0})
unfolding revalidate_named
handle_offline_scan tenant tolerance device e now = do
  id ← new_id
  modify (insert_scan e.event_id (offline_scan tolerance device e id now))
  elim e.session_id [ none ↦ skip | some session ↦ revalidate_named tenant device session now ]
