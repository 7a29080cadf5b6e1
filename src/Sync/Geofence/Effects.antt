-- ===== src/Sync/Geofence/Effects.antt =====
-- What the decision of the server does to the session, the phone and the alerts.
use phone_control.Common.{
  ℕ, suc, ◌≡◌, ◌≢◌, ◌∙◌, get_or, Bool-cases, ==_iff, List, ap, sym, refl, inl, inr, Bool, true,
  false, [], ◌∷◌, ◌++◌, Option, none, some, ◌==◌, Option-cases, update_where,
}
use phone_control.Store.Enums.{DeviceState}
use phone_control.Rules.Geofence.{SessionState}
use phone_control.Store.Keys.{Key}
use phone_control.Store.{
  Device, Depot, Session, Alert, GeofenceEvent, Db, Reply, done, raised, continue, pure,
}
use phone_control.Rules.Schedule.{Calendar, ok}
use phone_control.Rules.Geofence.{GeofenceDecision, evaluate_geofence_transition}
use phone_control.Alerts.{RaiseAlertInput, raise, find_open, open_count, IsDeduped}
use phone_control.Alerts.Dedupe.{raise_known, raise_new, raise_one_open}
use phone_control.Sessions.{current_for_device}
use phone_control.Sync.Events.{SyncEvent, transition_of}
use phone_control.Sync.Geofence.{
  is_recorded, raise_exit, alert_of, new_geofence_event, state_of, decided, device_state_of,
  write_decision, record_decision, decide, handle_geofence,
}
use phone_control.Sync.Geofence.Replay.{handle_fresh}

-- The tables that an alert leaves alone.
abbrev SameRows : Db → Db → Type 0
SameRows a b =
    (a.sessions ≡ b.sessions) × (a.devices ≡ b.devices) × (a.geofence_events ≡ b.geofence_events)

raise-SameRows : (input : RaiseAlertInput) (db : Db) → SameRows (raise input db).1 db
raise-SameRows input db =
    elim (Option-cases (find_open input.company_id input.dedupe_key db.alerts)) [
      | inl missing ↦ rw (raise_new input db missing) (refl, refl, refl)
      | inr (a, found) ↦ rw (raise_known input db a found) (refl, refl, refl)
    ]

-- The alerts after a decision: exactly one is open for the key if it raises one, and none is touched
-- otherwise.
abbrev pub Alerted : Bool → (company : ℕ) → Key → Db → Db → Type 0
Alerted true company key db db' = open_count company key db'.alerts ≡ 1
Alerted false company key db db' = db'.alerts ≡ db.alerts

Alerted-alerts :
    (b : Bool) (company : ℕ) (key : Key) (x y x' y' : Db)
    → x.alerts ≡ x'.alerts
    → y.alerts ≡ y'.alerts
    → Alerted b company key x y
    → Alerted b company key x' y'
Alerted-alerts true company key x y x' y' e f h = ap (open_count company key) (sym f) ∙ h
Alerted-alerts false company key x y x' y' e f h = sym f ∙ h ∙ e

named_alert :
    (x : Reply Alert × Db) (a : Alert)
    → x.0 ≡ done a
    → continue x (λ b. pure (some b.id)) ≡ (done (some a.id), x.1)
named_alert (done b, db) a h = let same : b ≡ a = cc h in rw same refl
named_alert (raised error, db) a h = absurd (cc h)

-- The rows of two tables are related one by one.
abbrev pub Pointwise : {A : Type 0} → (A → A → Type 0) → List A → List A → Type 0
Pointwise R [] [] = Unit
Pointwise R [] (y ∷ ys) = ⊥
Pointwise R (x ∷ xs) [] = ⊥
Pointwise R (x ∷ xs) (y ∷ ys) = R x y × Pointwise R xs ys

module _ (device : Device) (depot : Depot) (s : Session) (e : SyncEvent) where
  -- The session after a decision: its state is the one decided, a return is written with the time and
  -- the place of the event (the depot's, where the event has none), and otherwise the return that it
  -- had before is kept. It is still the same session, of the same phone and driver.
  abbrev pub Decided : GeofenceDecision → Session → Session → Type 0
  Decided d before after =
      (after.state ≡ d.next_session_state)
      × (d.mark_returned ≡ true
          → (after.returned_at ≡ some e.occurred_at)
            × (after.returned_latitude ≡ some (get_or e.latitude depot.latitude))
            × (after.returned_longitude ≡ some (get_or e.longitude depot.longitude))
            × (after.returned_accuracy ≡ e.accuracy_meters))
      × (d.mark_returned ≡ false
          → (after.returned_at ≡ before.returned_at)
            × (after.returned_latitude ≡ before.returned_latitude)
            × (after.returned_longitude ≡ before.returned_longitude))
      × (after.id ≡ before.id)
      × (after.device_id ≡ before.device_id)
      × (after.user_id ≡ before.user_id)
      × (after.status ≡ before.status)

  -- The phone after a decision is active while its session is, and returned once that is.
  abbrev pub Shown : GeofenceDecision → Device → Device → Type 0
  Shown d before after =
      (d.next_session_state ≡ SessionState.active → after.state ≡ DeviceState.active)
      × (d.next_session_state ≡ SessionState.returned → after.state ≡ DeviceState.returned)
      × (after.id ≡ before.id)
      × (after.enrollment_status ≡ before.enrollment_status)
      × (after.revoked_at ≡ before.revoked_at)

  -- The session of the phone and the phone follow the decision, no other session and no other phone
  -- changes, the event is recorded with the decision, and the alert is the one that it asks for.
  abbrev pub Effect : GeofenceDecision → Db → Db → Type 0
  Effect d db db' =
      Pointwise (λ x y. (x.id ≢ s.id → y ≡ x) × (x.id ≡ s.id → Decided d x y)) db.sessions
        db'.sessions
      × Pointwise (λ x y. (x.id ≢ device.id → y ≡ x) × (x.id ≡ device.id → Shown d x y)) db.devices
          db'.devices
      × ((g : GeofenceEvent) × (db'.geofence_events ≡ db.geofence_events ++ g ∷ [])
          × (g.event_id ≡ e.event_id)
          × (g.event_type ≡ d.event_type)
          × (g.occurred_at ≡ e.occurred_at)
          × (g.device_id ≡ device.id)
          × (g.session_id ≡ some s.id)
          × (g.depot_id ≡ depot.id))
      × Alerted d.alert device.company_id (Key.after_return_exit s.id) db db'

  decided-Decided : (d : GeofenceDecision) (x : Session) → Decided d x (decided d depot e x)
  decided-Decided d x = elim (Bool-cases d.mark_returned) [
    | inl here ↦ rw here (refl, λ h. (refl, refl, refl, refl), λ h. cc h, refl, refl, refl, refl)
    | inr there ↦ rw there (refl, λ h. cc h, λ h. (refl, refl, refl), refl, refl, refl, refl)
  ]

  sessions_decided :
      (d : GeofenceDecision) (xs : List Session)
      → Pointwise
          (λ x y. (x.id ≢ s.id → y ≡ x) × (x.id ≡ s.id → Decided d x y))
          xs
          (update_where (λ x. x.id == s.id) (decided d depot e) xs)
  sessions_decided d [] = tt
  sessions_decided d (x ∷ xs) = elim (Bool-cases (x.id == s.id)) [
    | inl hit ↦ rw hit (
      (λ apart. absurd (apart ((==_iff x.id s.id).0 hit)), λ same. decided-Decided d x),
      sessions_decided d xs,
    )
    | inr miss ↦ rw miss (
      (λ apart. refl, λ same. absurd (cc (miss, (==_iff x.id s.id).1 same))),
      sessions_decided d xs,
    )
  ]

  abbrev shown : GeofenceDecision → Device → Device
  shown d x = record x { state = device_state_of d.next_session_state }

  devices_shown :
      (d : GeofenceDecision) (xs : List Device)
      → Pointwise
          (λ x y. (x.id ≢ device.id → y ≡ x) × (x.id ≡ device.id → Shown d x y))
          xs
          (update_where (λ x. x.id == device.id) (shown d) xs)
  devices_shown d [] = tt
  devices_shown d (x ∷ xs) = elim (Bool-cases (x.id == device.id)) [
    | inl hit ↦ rw hit (
      (
        λ apart. absurd (apart ((==_iff x.id device.id).0 hit)),
        λ same. (λ h. ap device_state_of h, λ h. ap device_state_of h, refl, refl, refl),
      ),
      devices_shown d xs,
    )
    | inr miss ↦ rw miss (
      (λ apart. refl, λ same. absurd (cc (miss, (==_iff x.id device.id).1 same))),
      devices_shown d xs,
    )
  ]

  alert_of_run :
      (alert : Bool) (db : Db)
      → IsDeduped db
      → (a : Option ℕ) × (db' : Db) × (alert_of alert device depot (some s) e db ≡ (done a, db'))
        × SameRows db' db
        × Alerted alert device.company_id (Key.after_return_exit s.id) db db'
  unfolding alert_of raise_exit
  alert_of_run false db h = (none, db, refl, (refl, refl, refl), refl)
  alert_of_run true db h =
      let raised_one = raise_one_open _ (Key.after_return_exit s.id) db h refl in
      (
        some raised_one.0.id,
        _,
        named_alert _ raised_one.0 raised_one.1,
        raise-SameRows _ db,
        raised_one.3,
      )

  -- What the server does with its decision `d` on the transition.
  decision_run :
      (c : Calendar) (tolerance now : ℕ) (d : GeofenceDecision) (db : Db)
      → IsDeduped db
      → ((record_decision tolerance device depot (some s) e now d db).0 ≡ done tt)
        × Effect d db (record_decision tolerance device depot (some s) e now d db).1
  unfolding record_decision write_decision
  decision_run c tolerance now d db h =
      let db₀ = record db { issued = suc db.issued } in
      let run = alert_of_run d.alert db₀ h in
      let g = new_geofence_event tolerance device depot (some s) e d (db.ids db.issued) run.0 now in
      rw run.2 (
        refl,
        (
          rw run.3.0 (sessions_decided d db.sessions),
          rw run.3.1 (devices_shown d db.devices),
          (g, ap (λ gs. gs ++ g ∷ []) run.3.2, refl, refl, refl, refl, refl, refl),
          Alerted-alerts d.alert device.company_id (Key.after_return_exit s.id) db₀ run.1 db _ refl
              refl run.4,
        ),
      )

decide_run :
    (c : Calendar) (tolerance now : ℕ) (device : Device) (depot : Depot) (session : Option Session)
    (e : SyncEvent) (d : GeofenceDecision) (db : Db)
    → evaluate_geofence_transition c depot.schedule
        (transition_of e.geofence_event_type)
        e.occurred_at
        (state_of session)
      ≡ ok d
    → decide c tolerance device depot session e now db
      ≡ record_decision tolerance device depot session e now d db
unfolding decide
decide_run c tolerance now device depot session e d db h = rw (h, decide) refl

-- A new geofence event of a phone with a depot and an active session: the server decides by the
-- hours of the depot; if their configuration is right, the event is handled without an error. The
-- session then has the state decided, and, where the decision says so, the time and the place of its
-- return; the phone is active or returned as its session is; the other sessions and phones are
-- unchanged; the event is recorded with what was decided; and exactly one alert of the exit is open
-- for the session if the decision asks for it, or else no alert changes.
pub handle_geofence_decided :
    (c : Calendar) (tolerance now : ℕ) (device : Device) (depot : Depot) (s : Session)
    (e : SyncEvent) (d : GeofenceDecision) (db : Db)
    → IsDeduped db
    → is_recorded e.event_id db ≡ false
    → current_for_device device.id db ≡ some s
    → evaluate_geofence_transition c depot.schedule
        (transition_of e.geofence_event_type)
        e.occurred_at
        s.state
      ≡ ok d
    → ((handle_geofence c tolerance device (some depot) e now db).0 ≡ done tt)
      × Effect device depot s e d db (handle_geofence c tolerance device (some depot) e now db).1
handle_geofence_decided c tolerance now device depot s e d db h new session decision =
    let run =
      handle_fresh c tolerance device e depot now db new
      ∙ ap (λ x. decide c tolerance device depot x e now db) session
      ∙ decide_run c tolerance now device depot (some s) e d db decision in
    rw run (decision_run device depot s e c tolerance now d db h)
