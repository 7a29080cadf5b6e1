-- ===== src/Sync/Geofence/Replay.antt =====
-- A geofence event that a phone sends again.
use phone_control.Common.{
  ℕ, suc, ◌≡◌, refl, inl, inr, Bool, true, false, List, [], ◌∷◌, ◌++◌, Option, none, some, ==_iff,
  arith, Bool-cases, any,
}
use phone_control.Store.{Device, Depot, Session, Db, Reply, done, raised, continue}
use phone_control.Rules.Schedule.{Calendar, Checked-cases}
use phone_control.Rules.Geofence.{GeofenceDecision, evaluate_geofence_transition}
use phone_control.Sessions.{current_for_device}
use phone_control.Sync.Events.{SyncEvent, transition_of}
use phone_control.Sync.Geofence.{
  is_recorded, state_of, alert_of, write_decision, record_decision, decide, handle_geofence,
}

any-append :
    {A : Type 0} (p : A → Bool) (xs : List A) (x : A) → p x ≡ true → any p (xs ++ x ∷ []) ≡ true
any-append p [] x h = rw h refl
any-append p (y ∷ ys) x h = ground (arith, any-append p ys x h)

module _ (tolerance now : ℕ) (device : Device) (depot : Depot) (e : SyncEvent) where
  write_decision-is_recorded :
      (session : Option Session) (d : GeofenceDecision) (id : ℕ) (alert : Option ℕ) (db : Db)
      → is_recorded e.event_id (write_decision tolerance device depot session e now d id alert db).1
        ≡ true
  unfolding write_decision
  write_decision-is_recorded none d id alert db =
      any-append _ db.geofence_events _ ((==_iff e.event_id e.event_id).1 refl)
  write_decision-is_recorded (some s) d id alert db =
      any-append _ db.geofence_events _ ((==_iff e.event_id e.event_id).1 refl)

  recorded_after :
      (session : Option Session) (d : GeofenceDecision) (id : ℕ) (x : Reply (Option ℕ) × Db)
      → (continue x (λ alert. write_decision tolerance device depot session e now d id alert)).0
        ≡ done tt
      → is_recorded e.event_id
          (continue x (λ alert. write_decision tolerance device depot session e now d id alert)).1
        ≡ true
  recorded_after session d id (done alert, db) h = write_decision-is_recorded session d id alert db
  recorded_after session d id (raised error, db) h = absurd (cc h)

  decide-is_recorded :
      (c : Calendar) (session : Option Session) (db : Db)
      → (decide c tolerance device depot session e now db).0 ≡ done tt
      → is_recorded e.event_id (decide c tolerance device depot session e now db).1 ≡ true
  unfolding decide record_decision
  decide-is_recorded c session db h =
      let decision =
        evaluate_geofence_transition c depot.schedule (transition_of e.geofence_event_type)
          e.occurred_at (state_of session) in
      elim (Checked-cases decision) [
        | inl (d, decided) ↦
            let x =
              alert_of d.alert device depot session e (record db { issued = suc db.issued }) in
            rw (decided, decide)
              (recorded_after session d (db.ids db.issued) x (rw (decided, decide) at h))
        | inr (reason, wrong) ↦ absurd (cc (rw (wrong, decide) at h))
      ]

module _ (c : Calendar) (tolerance : ℕ) (device : Device) (e : SyncEvent) where
  handle_recorded :
      (depot : Option Depot) (now : ℕ) (db : Db)
      → is_recorded e.event_id db ≡ true
      → handle_geofence c tolerance device depot e now db ≡ (done tt, db)
  unfolding handle_geofence
  handle_recorded depot now db h = rw (h, handle_geofence) refl

  handle_homeless :
      (now : ℕ) (db : Db) → handle_geofence c tolerance device none e now db ≡ (done tt, db)
  unfolding handle_geofence
  handle_homeless now db = elim (Bool-cases (is_recorded e.event_id db)) [
    | inl known ↦ rw (known, handle_geofence) refl
    | inr new ↦ rw (new, handle_geofence) refl
  ]

  pub handle_fresh :
      (depot : Depot) (now : ℕ) (db : Db)
      → is_recorded e.event_id db ≡ false
      → handle_geofence c tolerance device (some depot) e now db
        ≡ decide c tolerance device depot (current_for_device device.id db) e now db
  unfolding handle_geofence
  handle_fresh depot now db h = rw (h, handle_geofence) refl

-- A geofence event that was handled without an error is not handled twice: sent again, at any later
-- time, it is acknowledged and changes nothing.
pub handle_geofence_replayed :
    (c : Calendar) (tolerance now later : ℕ) (device : Device) (depot : Option Depot)
    (e : SyncEvent) (db : Db)
    → (handle_geofence c tolerance device depot e now db).0 ≡ done tt
    → let db' = (handle_geofence c tolerance device depot e now db).1 in
      handle_geofence c tolerance device depot e later db' ≡ (done tt, db')
handle_geofence_replayed c tolerance now later device none e db h =
    rw (handle_homeless c tolerance device e now db) (handle_homeless c tolerance device e later db)
handle_geofence_replayed c tolerance now later device (some depot) e db h =
    elim (Bool-cases (is_recorded e.event_id db)) [
      | inl known ↦
          rw (handle_recorded c tolerance device e (some depot) now db known)
            (handle_recorded c tolerance device e (some depot) later db known)
      | inr new ↦
          let run = handle_fresh c tolerance device e depot now db new in
          rw run (
            handle_recorded c tolerance device e (some depot) later _ (
              decide-is_recorded tolerance now device depot e c (current_for_device device.id db) db
                (rw run at h)))
    ]
