-- ===== src/Sync/Locations.antt =====
-- `insertLocations` and `reportClockSkew` of apps/api/src/sync/sync.service.ts.
use phone_control.Common.{
  ℕ, ℤ, pos, negsuc, Bool, true, false, ◌&&◌, List, [], ◌∷◌, ◌++◌, Option, none, some, ◌==◌, ltb,
  get_or, or_else, if◌then◌else◌, any, update_where, map,
}
use phone_control.Store.Enums.{Severity, SecurityEventType}
use phone_control.Store.Keys.{Key}
use phone_control.Store.{
  Device, Session, LocationEvent, Db, M, Message, ◌>>=◌, ◌>>◌, Error, pure, throw, skip, read,
  modify, new_id, send,
}
use phone_control.Sessions.{current_for_device}
use phone_control.Sync.Events.{SyncEvent, is_clock_suspect, record_security_event}
use phone_control.Sync.Geofence.{user_id_of, session_id_of}
use phone_control.Sync.Reports.{raise_tampering, ignore}

-- The row of an event that has both coordinates.
abbrev pub location_row :
    ℕ → Device → Option Session → SyncEvent → (latitude longitude id now : ℕ) → LocationEvent
location_row tolerance device session e latitude longitude id now = record {
  id = id;
  event_id = e.event_id;
  company_id = device.company_id;
  device_id = device.id;
  session_id = or_else e.session_id (session_id_of session);
  user_id = user_id_of session;
  depot_id = or_else e.depot_id device.depot_id;
  recorded_at = e.occurred_at;
  latitude = latitude;
  longitude = longitude;
  accuracy_meters = e.accuracy_meters;
  is_mock = get_or e.is_mock false;
  battery_level = e.battery_level;
  clock_suspect = is_clock_suspect tolerance e.occurred_at now;
}

abbrev pub cons_row :
    ℕ
    → Device
    → Option Session
    → SyncEvent
    → Option ℕ
    → Option ℕ
    → ℕ
    → M (List LocationEvent)
    → M (List LocationEvent)
cons_row tolerance device session e (some latitude) (some longitude) now rest = do
  id ← new_id
  rows ← rest
  pure (location_row tolerance device session e latitude longitude id now ∷ rows)
cons_row tolerance device session e _ _ now rest = rest

-- The loop that builds the rows; an event without a coordinate is passed over.
unfoldable pub rows_of : ℕ → Device → Option Session → ℕ → List SyncEvent → M (List LocationEvent)
rows_of tolerance device session now [] = pure []
rows_of tolerance device session now (e ∷ es) =
    cons_row tolerance device session e e.latitude e.longitude now
      (rows_of tolerance device session now es)

-- `createMany` with `skipDuplicates`, under the index location_events_recorded_at_event_id_uidx.
abbrev pub insert_unknown : List LocationEvent → List LocationEvent → List LocationEvent
insert_unknown table [] = table
insert_unknown table (r ∷ rs) =
    insert_unknown
      (if any (λ x. x.recorded_at == r.recorded_at && x.event_id == r.event_id) table
        then table
        else table ++ r ∷ [])
      rs

abbrev pub insert_location_rows : List LocationEvent → Db → Db
insert_location_rows rows db = record db {
  location_events = insert_unknown db.location_events rows;
}

-- What a column of type SMALLINT does not hold.
abbrev pub exceeds_smallint : Option ℤ → Bool
exceeds_smallint none = false
exceeds_smallint (some (pos n)) = ltb 32767 n
exceeds_smallint (some (negsuc n)) = ltb 32767 n

abbrev pub exceeds : LocationEvent → Bool
exceeds r = exceeds_smallint r.battery_level

-- One statement: a value out of its range makes it fail as a whole.
unfoldable pub create_many : List LocationEvent → M (Unit {0})
create_many rows =
    if any exceeds rows then throw Error.out_of_range else modify (insert_location_rows rows)

-- Simulated positions are reported.
unfoldable pub report_mocked : Device → List LocationEvent → ℕ → M (Unit {0})
unfolding raise_tampering
report_mocked device rows now =
    if any (λ r. r.is_mock) rows
    then (do
      record_security_event device SecurityEventType.mock_location Severity.high now
      ignore (raise_tampering device Severity.high (Key.mock_location device.id)))
    else skip

-- The row with the latest time; of two with the same time, the later one in the list.
abbrev pub latest_of : LocationEvent → List LocationEvent → LocationEvent
latest_of a [] = a
latest_of a (b ∷ rows) = latest_of (if ltb b.recorded_at a.recorded_at then a else b) rows

abbrev pub is_newer : LocationEvent → Option ℕ → Bool
is_newer r none = true
is_newer r (some at) = ltb at r.recorded_at

abbrev pub located_at : LocationEvent → ℕ → Device → Device
located_at r now d = record d {
  last_latitude = some r.latitude;
  last_longitude = some r.longitude;
  last_accuracy = r.accuracy_meters;
  last_location_at = some r.recorded_at;
  last_sync_at = some now;
}

-- `device` is the row as it was read at the start of the push.
unfoldable pub follow_device : Device → LocationEvent → ℕ → M (Unit {0})
follow_device device r now =
    if is_newer r device.last_location_at
    then (do
      modify (λ db. record db {
        devices = update_where (λ d. d.id == device.id) (located_at r now) db.devices;
      })
      send (Message.device_updated device.id))
    else skip

unfoldable pub store_rows : Device → ℕ → List LocationEvent → M (List ℕ)
unfolding create_many report_mocked follow_device
store_rows device now [] = pure []
store_rows device now (r ∷ rows) = do
  create_many (r ∷ rows)
  report_mocked device (r ∷ rows) now
  follow_device device (latest_of r rows) now
  pure (map (λ x. x.event_id) (r ∷ rows))

-- The identifiers of the events that are acknowledged.
unfoldable pub insert_locations : ℕ → Device → List SyncEvent → ℕ → M (List ℕ)
unfolding rows_of store_rows
insert_locations tolerance device events now = do
  session ← read (current_for_device device.id)
  rows ← rows_of tolerance device session now events
  store_rows device now rows

unfoldable pub report_clock_skew : ℕ → Device → List SyncEvent → ℕ → M (Unit {0})
unfolding raise_tampering
report_clock_skew tolerance device events now =
    if any (λ e. is_clock_suspect tolerance e.occurred_at now) events
    then (do
      record_security_event device SecurityEventType.clock_tampering Severity.high now
      ignore (raise_tampering device Severity.high (Key.clock_tampering device.id)))
    else skip
