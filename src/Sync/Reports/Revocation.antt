-- ===== src/Sync/Reports/Revocation.antt =====
-- A session that was opened offline with a badge that is no longer valid.
use phone_control.Common.{
  ℕ, suc, ◌≡◌, ◌≤◌, ◌∙◌, refl, inl, inr, true, false, [], ◌∷◌, Option, none, some, ◌==◌, ==_iff,
  arith, Option-cases, find_first, find_first-some, update_where, count_where, count_where-append,
}
use phone_control.Store.Enums.{CommandType, SessionEndReason, is_active_session}
use phone_control.Store.Keys.{Key, same_key_refl}
use phone_control.Store.{Device, Session, DeviceCommand, Db, done, ◌>>=◌, skip, continue-done}
use phone_control.Alerts.{RaiseAlertInput, raise, find_open, open_count, IsDeduped}
use phone_control.Alerts.Dedupe.{raise_known, raise_new, raise_one_open}
use phone_control.Commands.{
  EnqueueParams, new_command, enqueue, create_command, find_keyed, is_keyed,
}
use phone_control.Commands.Orders.{IsOnly, HasOrder, counted-HasOrder, enqueue-IsOnly}
use phone_control.Sessions.{end_active, ended, is_session_of}
use phone_control.Sessions.Ends.{end_run}
use phone_control.Sync.Events.{SyncEvent}
use phone_control.Sync.Reports.{
  ignore, insert_scan, offline_scan, lock_order, revocation_alert, is_still_valid, is_named,
  revoke_offline, revalidate, revalidate_named, handle_offline_scan,
}

keyed_self :
    (params : EnqueueParams) (key : Key) (id now : ℕ)
    → params.idempotency_key ≡ some key
    → is_keyed params.device_id key (new_command params id now) ≡ true
keyed_self params key id now keyed =
    rw (keyed, same_key_refl key, (==_iff params.device_id params.device_id).1 refl) refl

-- A command with a key: it answers, and one with the key is in the queue.
enqueue_effect :
    (params : EnqueueParams) (key : Key) (now : ℕ) (db : Db)
    → params.idempotency_key ≡ some key
    → (c : DeviceCommand) × ((enqueue params now db).0 ≡ done c)
      × ((enqueue params now db).1.sessions ≡ db.sessions)
      × ((enqueue params now db).1.alerts ≡ db.alerts)
      × (1 ≤ count_where (is_keyed params.device_id key) (enqueue params now db).1.commands)
unfolding enqueue create_command
enqueue_effect params key now db keyed =
    elim (Option-cases (find_first (is_keyed params.device_id key) db.commands)) [
      | inl missing ↦
          let none_known : find_keyed params.device_id params.idempotency_key db.commands ≡ none =
            rw keyed missing in
          rw (enqueue, none_known)
            (rw (create_command, none_known)
              (
                new_command params (db.ids db.issued) now,
                refl,
                refl,
                refl,
                ground (
                  arith,
                  count_where-append (is_keyed params.device_id key) db.commands
                      (new_command params (db.ids db.issued) now ∷ []),
                  keyed_self params key (db.ids db.issued) now keyed,
                ),
              ))
      | inr (c, found) ↦
          let known : find_keyed params.device_id params.idempotency_key db.commands ≡ some c =
            rw keyed found in
          rw (enqueue, known)
            (
              c,
              refl,
              refl,
              refl,
              find_first-some (is_keyed params.device_id key) db.commands c found,
            )
    ]

raise_frame :
    (input : RaiseAlertInput) (db : Db)
    → ((raise input db).1.sessions ≡ db.sessions) × ((raise input db).1.commands ≡ db.commands)
raise_frame input db = elim (Option-cases (find_open input.company_id input.dedupe_key db.alerts)) [
  | inl missing ↦ rw (raise_new input db missing) (refl, refl)
  | inr (a, found) ↦ rw (raise_known input db a found) (refl, refl)
]

-- An alert with a key, as the last step of a handler.
ignore-raise :
    (input : RaiseAlertInput) (key : Key) (db : Db)
    → IsDeduped db
    → input.dedupe_key ≡ some key
    → ((ignore (raise input) db).0 ≡ done tt)
      × ((ignore (raise input) db).1.sessions ≡ db.sessions)
      × ((ignore (raise input) db).1.commands ≡ db.commands)
      × (open_count input.company_id key (ignore (raise input) db).1.alerts ≡ 1)
ignore-raise input key db h keyed =
    let one = raise_one_open input key db h keyed in
    let frame = raise_frame input db in
    rw (continue-done (raise input db) one.0 (λ a. skip) one.1) (refl, frame.0, frame.1, one.3)

module _ (device : Device) (s : Session) (now : ℕ) where
  abbrev key : Key
  key = Key.offline_revalidation s.id

  -- The session is ended, the phone has an order to lock, and exactly one alert is open for it.
  abbrev pub Revoked : Db → Db → Type 0
  Revoked db db' =
      (db'.sessions
        ≡ update_where (λ x. x.id == s.id) (ended SessionEndReason.offline_revalidation_failed now)
            db.sessions)
      × HasOrder CommandType.lock_device device.id key db'.commands
      × (open_count device.company_id key db'.alerts ≡ 1)

  -- The order and the alert, on a database whose alerts are as they should be.
  after_end :
      (db : Db)
      → IsDeduped db
      → IsOnly CommandType.lock_device key db.commands
      → (((enqueue (lock_order device s) now >>= λ c. ignore (raise (revocation_alert device s)))
            db).0
          ≡ done tt)
        × (((enqueue (lock_order device s) now >>= λ c. ignore (raise (revocation_alert device s)))
              db).1.sessions
            ≡ db.sessions)
        × HasOrder CommandType.lock_device device.id key
            ((enqueue (lock_order device s) now >>= λ c. ignore (raise (revocation_alert device s)))
              db).1.commands
        × (open_count device.company_id key
              ((enqueue (lock_order device s) now >>= λ c.
                  ignore (raise (revocation_alert device s)))
                db).1.alerts
            ≡ 1)
  after_end db h only =
      let (c, answered, same_sessions, same_alerts, queued) =
        enqueue_effect (lock_order device s) key now db refl in
      let db' = (enqueue (lock_order device s) now db).1 in
      let deduped : IsDeduped db' = λ company k. rw same_alerts (h company k) in
      let (returned, sessions, commands, one) =
        ignore-raise (revocation_alert device s) key db' deduped refl in
      rw
        (continue-done (enqueue (lock_order device s) now db) c
          (λ x. ignore (raise (revocation_alert device s))) answered)
        (
          returned,
          sessions ∙ same_sessions,
          rw commands (
              counted-HasOrder CommandType.lock_device device.id key db'.commands queued (
                enqueue-IsOnly CommandType.lock_device key (lock_order device s) now db (λ k. refl)
                  only)),
          one,
        )

  revoke_effect :
      (tenant : Option ℕ) (db : Db)
      → IsDeduped db
      → IsOnly CommandType.lock_device key db.commands
      → find_first (is_session_of tenant s.id) db.sessions ≡ some s
      → is_active_session s.status ≡ true
      → ((revoke_offline tenant device s now db).0 ≡ done tt)
        × Revoked db (revoke_offline tenant device s now db).1
  unfolding revoke_offline end_active
  revoke_effect tenant db h only found active =
      let (returned, sessions, queued, one) =
        after_end (end_active s SessionEndReason.offline_revalidation_failed now db).1 h only in
      rw (end_run tenant s.id now SessionEndReason.offline_revalidation_failed db s found active)
        (returned, (sessions, queued, one))

revalidate_named_revokes :
    (tenant : Option ℕ) (now id : ℕ) (device : Device) (s : Session) (db : Db)
    → IsDeduped db
    → IsOnly CommandType.lock_device (Key.offline_revalidation s.id) db.commands
    → find_first (is_named device.id id) db.sessions ≡ some s
    → find_first (is_session_of tenant s.id) db.sessions ≡ some s
    → is_active_session s.status ≡ true
    → is_still_valid s db ≡ false
    → ((revalidate_named tenant device id now db).0 ≡ done tt)
      × Revoked device s now db (revalidate_named tenant device id now db).1
unfolding revalidate_named revalidate
revalidate_named_revokes tenant now id device s db h only found owned active invalid =
    rw (found, revalidate_named)
      (rw active
        (rw (invalid, revalidate) (revoke_effect device s now tenant db h only owned active)))

-- The database once the scan is inserted.
abbrev scanned : ℕ → ℕ → Device → SyncEvent → Db → Db
scanned tolerance now device e db =
    insert_scan e.event_id (offline_scan tolerance device e (db.ids db.issued) now)
      (record db { issued = suc db.issued })

scan_run :
    (tenant : Option ℕ) (tolerance now id : ℕ) (device : Device) (e : SyncEvent) (db : Db)
    → e.session_id ≡ some id
    → handle_offline_scan tenant tolerance device e now db
      ≡ revalidate_named tenant device id now (scanned tolerance now device e db)
unfolding handle_offline_scan
scan_run tenant tolerance now id device e db named = rw (named, handle_offline_scan) refl

-- A scan that a phone made offline and reports later, for a session that is active on the phone and
-- whose badge or user is no longer active, where the queue has no other command than orders to lock
-- under the key of the revalidation of this session: the handler does not fail, the session is ended,
-- a command to lock this phone is in the queue under that key, and exactly one alert is open for it.
pub handle_offline_scan_revokes :
    (tenant : Option ℕ) (tolerance now id : ℕ) (device : Device) (s : Session) (e : SyncEvent)
    (db : Db)
    → IsDeduped db
    → IsOnly CommandType.lock_device (Key.offline_revalidation s.id) db.commands
    → e.session_id ≡ some id
    → find_first (is_named device.id id) db.sessions ≡ some s
    → find_first (is_session_of tenant s.id) db.sessions ≡ some s
    → is_active_session s.status ≡ true
    → is_still_valid s db ≡ false
    → ((handle_offline_scan tenant tolerance device e now db).0 ≡ done tt)
      × Revoked device s now db (handle_offline_scan tenant tolerance device e now db).1
handle_offline_scan_revokes tenant tolerance now id device s e db h only named found owned active
      invalid =
    rw (scan_run tenant tolerance now id device e db named) (
      revalidate_named_revokes tenant now id device s (scanned tolerance now device e db) h only
        found owned active invalid)
