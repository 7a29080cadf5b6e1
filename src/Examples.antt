-- ===== src/Examples.antt =====
-- A small fleet, and the properties at work on it.
pub mod Jobs
pub mod Config
pub mod Logins
pub mod Hours
pub mod Requests
pub mod Reports
pub mod Sharing
pub mod Memory
pub mod Companies
pub mod Guards
pub mod Retention
pub mod Phones
pub mod Beats
pub mod Sheets
pub mod Admins
use phone_control.Common.{
  ℕ, suc, ◌+◌, ◌*◌, ◌/◌, ◌%◌, Bool, true, false, List, [], ◌∷◌, Option, none, some,
}
use phone_control.Store.Enums.{
  KioskMode, DeviceState, EnrollmentStatus, SessionStatus, CommandType, CommandStatus,
  ScreenShareState, Severity, AlertType,
}
use phone_control.Store.Keys.{Key}
use phone_control.Store.{Db, Device, Session, DeviceCommand, ScreenShareSession, Alert}
use phone_control.Rules.Geofence.{SessionState, active}
use phone_control.Rules.Clock.{Text, minutes}
use phone_control.Rules.Schedule.{Calendar, DepotSchedule, PartialRules, ScheduleOverrides, Special}
use phone_control.Alerts.{RaiseAlertInput}
use phone_control.Commands.{EnqueueParams}

-- A calendar without changes of clocks.
abbrev pub utc : Calendar
utc = record {
  zone_valid = λ zone. true;
  local = λ zone t. record {
    day = t / 86400000;
    time = record { hour = t / 3600000 % 24; minute = t / 60000 % 60 };
  };
  weekday = λ day. (day + 3) % 7 + 1;
  instant = λ zone day t. day * 86400000 + minutes t * 60000;
}

-- 22:00, 02:00 and 04:00
abbrev pub ten_pm : Text
ten_pm = b'2' ∷ b'2' ∷ b':' ∷ b'0' ∷ b'0' ∷ []

abbrev pub two_am : Text
two_am = b'0' ∷ b'2' ∷ b':' ∷ b'0' ∷ b'0' ∷ []

abbrev pub four_am : Text
four_am = b'0' ∷ b'4' ∷ b':' ∷ b'0' ∷ b'0' ∷ []

abbrev pub no_hours : PartialRules
no_hours = record { return_time = none; lock_time = none }

-- A null Monday, and a special period over it.
abbrev pub overrides : ScheduleOverrides
overrides = record {
  weekdays = (1, none) ∷ [];
  holidays = [];
  special =
      record {
        from = 4;
        to = 5;
        rules = record { return_time = some (some two_am); lock_time = none };
      }
      ∷ [];
}

abbrev pub depot : DepotSchedule
depot = record {
  timezone = [];
  return_time = ten_pm;
  lock_time = two_am;
  operational_day_start = four_am;
  overrides = none;
}

abbrev pub special_depot : DepotSchedule
special_depot = record depot { overrides = some overrides }

abbrev pub phone : Device
phone = record {
  id = 7;
  company_id = 1;
  depot_id = none;
  enrollment_status = EnrollmentStatus.enrolled;
  state = DeviceState.active;
  last_seen_at = none;
  last_sync_at = none;
  last_latitude = none;
  last_longitude = none;
  last_accuracy = none;
  last_location_at = none;
  revoked_at = none;
  deleted_at = none;
  asset_tag = b'T' ∷ b'1' ∷ [];
  device_owner_active = true;
  kiosk_mode = KioskMode.kiosk;
  enrolled_at = none;
  offline_key = none;
}

abbrev pub shift : Session
shift = record {
  id = 70;
  company_id = 1;
  user_id = 3;
  device_id = 7;
  depot_id = none;
  badge_id = none;
  started_at = 0;
  expires_at = 100;
  ended_at = none;
  end_reason = none;
  status = SessionStatus.active;
  state = active;
  returned_at = none;
  returned_latitude = none;
  returned_longitude = none;
  returned_accuracy = none;
  offline_validated_at = none;
}

-- A lock that the phone has been sent.
abbrev pub lock : DeviceCommand
lock = record {
  id = 40;
  company_id = 1;
  device_id = 7;
  command = CommandType.lock_device;
  status = CommandStatus.sent;
  priority = 90;
  idempotency_key = some (Key.scheduled_lock 5);
  created_by = none;
  created_at = 5;
  sent_at = some 6;
  delivered_at = none;
  executed_at = none;
  expires_at = 1000;
  attempts = 1;
}

-- A request to see the screen that waits for the driver.
abbrev pub waiting : ScreenShareSession
waiting = record {
  id = 80;
  company_id = 1;
  device_id = 7;
  user_id = some 3;
  requested_by = 2;
  state = ScreenShareState.requested;
  requested_at = 10;
  responded_at = none;
  started_at = none;
  ended_at = none;
  expires_at = 60;
  frame_count = 0;
}

abbrev pub running : ScreenShareSession
running = record waiting {
  state = ScreenShareState.accepted;
  started_at = some 20;
  expires_at = 900;
}

abbrev pub db : Db
db = record {
  ids = λ n. n + 1000;
  issued = 0;
  devices = phone ∷ [];
  depots = [];
  sessions = shift ∷ [];
  users = [];
  badges = [];
  assignments = [];
  commands = lock ∷ [];
  alerts = [];
  security_events = [];
  geofence_events = [];
  scan_events = [];
  location_events = [];
  screen_shares = waiting ∷ [];
  credentials = [];
  enrollment_tokens = [];
  outbox = [];
}

abbrev pub running_db : Db
running_db = record db { screen_shares = running ∷ [] }

abbrev pub done_db : Db
done_db = record db { commands = record lock { status = CommandStatus.executed } ∷ [] }

-- An alert of the phone's session.
abbrev pub input : RaiseAlertInput
input = record {
  company_id = 1;
  type = AlertType.not_returned;
  severity = Severity.high;
  device_id = some 7;
  user_id = some 3;
  depot_id = none;
  session_id = some 70;
  latitude = none;
  longitude = none;
  dedupe_key = some (Key.not_returned 70);
}

abbrev pub lock_request : EnqueueParams
lock_request = record {
  company_id = 1;
  device_id = 7;
  command = CommandType.lock_device;
  ttl_minutes = none;
  created_by = none;
  idempotency_key = some (Key.scheduled_lock 5);
  priority = none;
}
