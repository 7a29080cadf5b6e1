-- ===== src/Examples/Reports.antt =====
-- What a phone reports.
use phone_control.Common.{◌≡◌, refl, true, false, [], ◌∷◌, none, some, arith}
use phone_control.Store.{Session, Depot, Db, done}
use phone_control.Rules.Geofence.{GeofenceEventType, returned, evaluate_geofence_transition}
use phone_control.Alerts.{IsDeduped}
use phone_control.Sync.Events.{SyncEvent, geofence, location, barcode_scan}
use phone_control.Sync.Geofence.{handle_geofence}
use phone_control.Sync.Geofence.Replay.{handle_geofence_replayed}
use phone_control.Sync.Geofence.Effects.{Effect, handle_geofence_decided}
use phone_control.Sync.Reports.{handle_offline_scan}
use phone_control.Sync.Reports.Revocation.{Revoked, handle_offline_scan_revokes}
use phone_control.Sync.Push.{push}
use phone_control.Sync.Push.Accounts.{Accounts, push-Accounts}
use phone_control.Examples.{db, depot, phone, shift, utc}
use phone_control.Examples.Hours.{left_again}

abbrev site : Depot
site = record {
  id = 5;
  company_id = 1;
  latitude = 48;
  longitude = 2;
  schedule = depot;
  is_active = true;
  deleted_at = none;
}

-- The phone leaves the depot.
abbrev leaving : SyncEvent
leaving = record {
  event_id = 500;
  seq = 1;
  kind = geofence;
  occurred_at = 79200000;
  latitude = none;
  longitude = none;
  accuracy_meters = none;
  is_mock = none;
  battery_level = none;
  geofence_event_type = some GeofenceEventType.exit_depot;
  depot_id = none;
  confidence = none;
  security_type = none;
  severity = none;
  session_id = none;
}

-- A position without coordinates.
abbrev lost : SyncEvent
lost = record leaving { event_id = 501; seq = 2; kind = location }

push-Accounts_example :
    Accounts false 500
      (lost ∷ leaving ∷ [])
      (push utc none 300000 80000000 7 (lost ∷ leaving ∷ []) db).0
push-Accounts_example =
    push-Accounts utc none 300000 80000000 7 500 (lost ∷ leaving ∷ []) db phone refl

abbrev returned_shift : Session
returned_shift = record shift { state = returned }

abbrev returned_db : Db
returned_db = record db { sessions = returned_shift ∷ [] }

returned_db-IsDeduped : IsDeduped returned_db
returned_db-IsDeduped company k = omega arith

handle_geofence_decided_example :
    ((handle_geofence utc 300000 phone (some site) leaving 80000000 returned_db).0 ≡ done tt)
    × Effect phone site returned_shift leaving left_again returned_db
        (handle_geofence utc 300000 phone (some site) leaving 80000000 returned_db).1
unfolding evaluate_geofence_transition
handle_geofence_decided_example =
    handle_geofence_decided utc 300000 80000000 phone site returned_shift leaving left_again
      returned_db returned_db-IsDeduped refl refl refl

handle_geofence_runs :
    (handle_geofence utc 300000 phone (some site) leaving 80000000 returned_db).0 ≡ done tt
unfolding evaluate_geofence_transition
handle_geofence_runs =
    (handle_geofence_decided utc 300000 80000000 phone site returned_shift leaving left_again
      returned_db returned_db-IsDeduped refl refl refl).0

handle_geofence_replayed_example :
    let db' = (handle_geofence utc 300000 phone (some site) leaving 80000000 returned_db).1 in
    handle_geofence utc 300000 phone (some site) leaving 90000000 db' ≡ (done tt, db')
handle_geofence_replayed_example =
    handle_geofence_replayed utc 300000 80000000 90000000 phone (some site) leaving returned_db
      handle_geofence_runs

-- The session was opened without a badge that still exists.
abbrev scan : SyncEvent
scan = record leaving { event_id = 502; kind = barcode_scan; session_id = some 70 }

db-IsDeduped : IsDeduped db
db-IsDeduped company k = omega arith

handle_offline_scan_revokes_example :
    ((handle_offline_scan (some 1) 300000 phone scan 80000000 db).0 ≡ done tt)
    × Revoked phone shift 80000000 db (handle_offline_scan (some 1) 300000 phone scan 80000000 db).1
handle_offline_scan_revokes_example =
    handle_offline_scan_revokes (some 1) 300000 80000000 70 phone shift scan db db-IsDeduped
      (λ h. ground arith, tt) refl refl refl refl refl
