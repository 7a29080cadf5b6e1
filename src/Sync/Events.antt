-- ===== src/Sync/Events.antt =====
-- apps/api/src/sync/dto/sync.dto.ts: an event of a phone, and the helpers on it. One call of
-- `push` has one time `now`, and `occurred_at` is an instant: a text that `new Date` cannot read is
-- not modelled; `tolerance` is CLOCK_SKEW_TOLERANCE_SECONDS in milliseconds.
use phone_control.Common.{
  ℕ, ℤ, ◌+◌, Bool, true, false, ◌&&◌, ◌||◌, Option, none, some, ◌==◌, ltb, find_first, found_is,
}
use phone_control.Store.Enums.{Severity, SecurityEventType}
use phone_control.Store.{Device, Depot, Db, M, ◌>>=◌, modify, new_id}
use phone_control.Rules.Geofence.{GeofenceEventType, TransitionKind, enter, exit}
use phone_control.Sessions.{add_security_event}

pub data SyncEventKind : Type 0 where
  location geofence barcode_scan security : SyncEventKind

-- An event as the request carries it, without the attributes that are only stored (altitude, speed,
-- bearing, provider). `occurred_at` is what `new Date` reads from its text: a text that `new Date`
-- cannot read is not modelled.
pub record SyncEvent : Type 0 where
  pub event_id : ℕ
  pub seq : ℕ
  pub kind : SyncEventKind
  pub occurred_at : ℕ
  pub latitude : Option ℕ
  pub longitude : Option ℕ
  pub accuracy_meters : Option ℕ
  pub is_mock : Option Bool
  pub battery_level : Option ℤ
  pub geofence_event_type : Option GeofenceEventType
  pub depot_id : Option ℕ
  pub confidence : Option ℕ
  pub security_type : Option SecurityEventType
  pub severity : Option Severity
  pub session_id : Option ℕ

-- `priority`
abbrev pub priority : SyncEventKind → ℕ
priority security = 0
priority geofence = 1
priority barcode_scan = 2
priority _ = 3

-- The comparison of the sort.
abbrev pub precedes : SyncEvent → SyncEvent → Bool
precedes a b =
    ltb (priority a.kind) (priority b.kind)
    || (priority a.kind == priority b.kind && ltb a.seq b.seq)

abbrev pub is_location : SyncEvent → Bool
is_location e = elim e.kind [ location ↦ true | _ ↦ false ]

-- `isClockSuspect`
abbrev pub is_clock_suspect : ℕ → ℕ → ℕ → Bool
is_clock_suspect tolerance occurred_at now = ltb (now + tolerance) occurred_at

-- The kind of the transition that the phone reports.
abbrev pub transition_of : Option GeofenceEventType → TransitionKind
transition_of (some GeofenceEventType.exit_depot) = exit
transition_of (some GeofenceEventType.after_return_exit) = exit
transition_of _ = enter

abbrev pub depot_of : Device → Db → Option Depot
depot_of device db = find_first (λ d. found_is device.depot_id d.id) db.depots

-- `recordSecurityEvent`
abbrev pub record_security_event : Device → SecurityEventType → Severity → ℕ → M (Unit {0})
record_security_event device type severity occurred_at = do
  id ← new_id
  modify (
      add_security_event (record {
        id = id;
        event_id = none;
        company_id = device.company_id;
        device_id = device.id;
        user_id = none;
        session_id = none;
        type = type;
        severity = severity;
        occurred_at = occurred_at;
        clock_suspect = false;
      }))
