-- ===== src/Sync/Geofence.antt =====
-- `handleGeofence` of apps/api/src/sync/sync.service.ts. The texts and the JSON values are left out.
pub mod Replay
pub mod Effects
use phone_control.Common.{
  ℕ, suc, ◌+◌, Bool, true, false, List, [], ◌∷◌, ◌++◌, Option, none, some, ◌==◌, get_or, is_some,
  if◌then◌else◌, find_first, any, update_where, map,
}
use phone_control.Store.Enums.{Severity, AlertType, SecurityEventType, DeviceState}
use phone_control.Store.Keys.{Key}
use phone_control.Store.{
  Device, Depot, Session, Alert, GeofenceEvent, SecurityEvent, Db, M, Message, Error, ◌>>=◌, ◌>>◌,
  pure, throw, skip, read, modify, new_id, send,
}
use phone_control.Rules.Schedule.{Calendar, Checked, ok, misconfigured}
use phone_control.Rules.Geofence.{
  GeofenceDecision, GeofenceEventType, SessionState, TransitionKind, enter, exit, active, returned,
  is_returned, evaluate_geofence_transition,
}
use phone_control.Alerts.{raise}
use phone_control.Commands.{set_device_state}
use phone_control.Sessions.{current_for_device, update_session, add_security_event}
use phone_control.Sync.Events.{SyncEvent, transition_of, is_clock_suspect, depot_of}

-- `geofenceEvent.findUnique({ where: { eventId } })`
abbrev pub is_recorded : ℕ → Db → Bool
is_recorded event_id db = any (λ g. g.event_id == event_id) db.geofence_events

abbrev pub state_of : Option Session → SessionState
state_of none = active
state_of (some s) = s.state

abbrev pub user_id_of : Option Session → Option ℕ
user_id_of none = none
user_id_of (some s) = some s.user_id

abbrev pub session_id_of : Option Session → Option ℕ
session_id_of none = none
session_id_of (some s) = some s.id

-- `after-return-exit:${session?.id ?? device.id}`
abbrev pub exit_key : Option Session → Device → Key
exit_key none device = Key.after_return_exit device.id
exit_key (some s) device = Key.after_return_exit s.id

unfoldable pub raise_exit : Device → Depot → Option Session → SyncEvent → M Alert
raise_exit device depot session e = raise record {
  company_id = device.company_id;
  type = AlertType.after_return_exit;
  severity = Severity.high;
  device_id = some device.id;
  user_id = user_id_of session;
  depot_id = some depot.id;
  session_id = session_id_of session;
  latitude = e.latitude;
  longitude = e.longitude;
  dedupe_key = some (exit_key session device);
}

-- The alert of a decision, if it has one: its identifier.
unfoldable pub alert_of : Bool → Device → Depot → Option Session → SyncEvent → M (Option ℕ)
unfolding raise_exit
alert_of true device depot session e = do a ← raise_exit device depot session e; pure (some a.id)
alert_of false device depot session e = pure none

abbrev pub new_geofence_event :
    (tolerance : ℕ)
    → Device
    → Depot
    → Option Session
    → SyncEvent
    → GeofenceDecision
    → (id : ℕ) (alert : Option ℕ) (now : ℕ) → GeofenceEvent
new_geofence_event tolerance device depot session e d id alert now = record {
  id = id;
  event_id = e.event_id;
  company_id = device.company_id;
  device_id = device.id;
  user_id = user_id_of session;
  session_id = session_id_of session;
  depot_id = depot.id;
  event_type = d.event_type;
  occurred_at = e.occurred_at;
  latitude = get_or e.latitude depot.latitude;
  longitude = get_or e.longitude depot.longitude;
  accuracy_meters = e.accuracy_meters;
  confidence = some (get_or e.confidence 1);
  created_alert_id = alert;
  clock_suspect = is_clock_suspect tolerance e.occurred_at now;
}

abbrev pub insert_geofence_event : GeofenceEvent → Db → Db
insert_geofence_event g db = record db { geofence_events = db.geofence_events ++ g ∷ [] }

-- What the decision writes to the session.
abbrev pub decided : GeofenceDecision → Depot → SyncEvent → Session → Session
decided d depot e s =
    if d.mark_returned
    then record s {
      state = d.next_session_state;
      returned_at = some e.occurred_at;
      returned_latitude = some (get_or e.latitude depot.latitude);
      returned_longitude = some (get_or e.longitude depot.longitude);
      returned_accuracy = e.accuracy_meters;
    }
    else record s { state = d.next_session_state }

abbrev pub device_state_of : SessionState → DeviceState
device_state_of active = DeviceState.active
device_state_of returned = DeviceState.returned

abbrev pub apply_to_session :
    Option Session → GeofenceDecision → Depot → Device → SyncEvent → Db → Db
apply_to_session none d depot device e db = db
apply_to_session (some s) d depot device e db =
    set_device_state device.id (device_state_of d.next_session_state)
      (update_session s.id (decided d depot e) db)

abbrev pub journal_type : GeofenceEventType → TransitionKind → SecurityEventType
journal_type GeofenceEventType.after_return_exit kind = SecurityEventType.after_return_exit
journal_type _ enter = SecurityEventType.enter_depot
journal_type _ exit = SecurityEventType.exit_depot

abbrev pub journal_severity : GeofenceEventType → Severity
journal_severity GeofenceEventType.after_return_exit = Severity.high
journal_severity _ = Severity.low

abbrev pub journal_entry :
    Device → Option Session → SyncEvent → GeofenceDecision → (id : ℕ) → SecurityEvent
journal_entry device session e d id = record {
  id = id;
  event_id = none;
  company_id = device.company_id;
  device_id = device.id;
  user_id = user_id_of session;
  session_id = session_id_of session;
  type = journal_type d.event_type (transition_of e.geofence_event_type);
  severity = journal_severity d.event_type;
  occurred_at = e.occurred_at;
  clock_suspect = false;
}

-- `realtime.sessionChanged`, if there is a session.
abbrev pub notify_session : Option Session → GeofenceDecision → Depot → SyncEvent → M (Unit {0})
notify_session none d depot e = skip
notify_session (some s) d depot e = send (Message.session_changed (decided d depot e s))

-- The transaction, then the message.
unfoldable pub write_decision :
    ℕ
    → Device
    → Depot
    → Option Session
    → SyncEvent
    → ℕ
    → GeofenceDecision
    → (id : ℕ) (alert : Option ℕ) → M (Unit {0})
write_decision tolerance device depot session e now d id alert = do
  modify
      (insert_geofence_event (new_geofence_event tolerance device depot session e d id alert now))
  modify (apply_to_session session d depot device e)
  journal_id ← new_id
  modify (add_security_event (journal_entry device session e d journal_id))
  notify_session session d depot e

unfoldable pub record_decision :
    ℕ → Device → Depot → Option Session → SyncEvent → ℕ → GeofenceDecision → M (Unit {0})
unfolding alert_of write_decision
record_decision tolerance device depot session e now d = do
  id ← new_id
  alert ← alert_of d.alert device depot session e
  write_decision tolerance device depot session e now d id alert

-- A wrong configuration of the depot throws.
unfoldable pub decide :
    Calendar → ℕ → Device → Depot → Option Session → SyncEvent → ℕ → M (Unit {0})
unfolding record_decision
decide c tolerance device depot session e now =
    elim (evaluate_geofence_transition c depot.schedule (transition_of e.geofence_event_type)
      e.occurred_at (state_of session)) [
        | misconfigured reason ↦ throw Error.config_error
        | ok d ↦ record_decision tolerance device depot session e now d
      ]

unfoldable pub handle_geofence : Calendar → ℕ → Device → Option Depot → SyncEvent → ℕ → M (Unit {0})
unfolding decide
handle_geofence c tolerance device depot e now = do
  recorded ← read (is_recorded e.event_id)
  if recorded then skip else elim depot [
    | none ↦ skip
    | some d ↦ do
      session ← read (current_for_device device.id)
      decide c tolerance device d session e now
  ]
