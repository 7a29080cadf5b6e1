-- ===== src/Sessions/Ends.antt =====
-- What ends a session, and that it stays ended.
use phone_control.Common.{
  ℕ, ◌≡◌, ◌≤◌, true, false, List, [], ◌∷◌, ◌++◌, ◌∙◌, Option, none, some, arith, refl, ap, inl, inr,
  Bool-cases, Option-cases, ◌==◌, ==_iff, All, keep, find_first, update_where, count_where,
}
use phone_control.Common.Ids.{
  count_where-update_le, find_first-update_where, update_where-kept, All-of_Within, DistinctIds,
}
use phone_control.Store.Enums.{SessionStatus, SessionEndReason, DeviceState, is_active_session}
use phone_control.Store.{Session, Db, done}
use phone_control.Commands.{is_active_on, close_session}
use phone_control.Commands.Reports.{locked_devices}
use phone_control.Sessions.{
  ended, status_for, is_session_of, end_active, end, is_overdue, has_session_id_in, has_device_in,
  expire_all, expire_overdue, session_ended_event,
}

-- What the database guarantees by its index sessions_active_per_device_uidx.
abbrev pub IsExclusive : Db → Type 0
IsExclusive db = (device : ℕ) → count_where (is_active_on device) db.sessions ≤ 1

closing_end :
    (device : ℕ) (db : Db) (s : Session) (reason : SessionEndReason) (now : ℕ)
    → IsExclusive db
    → count_where
        (is_active_on device)
        (update_where (λ x. x.id == s.id) (ended reason now) db.sessions)
      ≤ 1
closing_end device db s reason now h = omega (
  arith,
  h device,
  count_where-update_le (is_active_on device) (λ x. x.id == s.id) (ended reason now) db.sessions
      (All-of_Within _ db.sessions (λ x w k l. absurd (ground arith))),
)

-- Ending a session, whether it is found or not, leaves every device with at most one active session.
pub end-IsExclusive :
    (tenant : Option ℕ) (id now : ℕ) (reason : SessionEndReason) (db : Db)
    → IsExclusive db
    → IsExclusive (end tenant id reason now db).1
unfolding end
end-IsExclusive tenant id now reason db h device =
    elim (Option-cases (find_first (is_session_of tenant id) db.sessions)) [
      | inl missing ↦ rw (missing, end) (h device)
      | inr (s, found) ↦ elim (Bool-cases (is_active_session s.status)) [
        | inl active ↦ rw (found, end) (rw (active, end) (closing_end device db s reason now h))
        | inr over ↦ rw (found, end) (rw (over, end) (h device))
      ]
    ]

never {ℓ} : {A : Type ℓ} (f : A → A) (xs : List A) → update_where (λ x. false) f xs ≡ xs
never f [] = refl
never f (x ∷ xs) = ap (λ r. x ∷ r) (never f xs)

expire_all_run :
    (now : ℕ) (overdue : List Session) (db : Db)
    → expire_all now overdue db ≡ (
      done overdue,
      record db {
        sessions =
            update_where
              (has_session_id_in overdue)
              (close_session SessionStatus.expired SessionEndReason.expired now)
              db.sessions;
        devices =
            update_where
              (has_device_in overdue)
              (λ d. record d { state = DeviceState.locking })
              db.devices;
      },
    )
unfolding expire_all
expire_all_run now [] db = rw (never _ db.sessions, never _ db.devices) refl
expire_all_run now (s ∷ rest) db = refl

pub expire_overdue-commands :
    (now : ℕ) (companies : Option (List ℕ)) (db : Db)
    → (expire_overdue now companies db).1.commands ≡ db.commands
unfolding expire_overdue
expire_overdue-commands now companies db =
    ap (λ r. r.1.commands) (expire_all_run now (keep (is_overdue now companies) db.sessions) db)

-- Exactly the sessions that are active, overdue and of the companies in question are expired, and
-- returned to the caller; their devices are being locked.
pub expire_overdue_exact :
    (now : ℕ) (companies : Option (List ℕ)) (db : Db)
    → DistinctIds (λ s. s.id) db.sessions
    → let overdue = keep (is_overdue now companies) db.sessions in
      ((expire_overdue now companies db).0 ≡ done overdue)
      × ((expire_overdue now companies db).1.sessions
          ≡ update_where
              (is_overdue now companies)
              (close_session SessionStatus.expired SessionEndReason.expired now)
              db.sessions)
      × ((expire_overdue now companies db).1.devices
          ≡ update_where
              (has_device_in overdue)
              (λ d. record d { state = DeviceState.locking })
              db.devices)
unfolding expire_overdue
expire_overdue_exact now companies db ids =
    let overdue = keep (is_overdue now companies) db.sessions in
    let run = expire_all_run now overdue db in
    (
      ap (λ r. r.0) run,
      ap (λ r. r.1.sessions) run
          ∙ update_where-kept (λ s. s.id) (is_overdue now companies)
              (close_session SessionStatus.expired SessionEndReason.expired now) db.sessions ids,
      ap (λ r. r.1.devices) run,
    )

pub end_run :
    (tenant : Option ℕ) (id now : ℕ) (reason : SessionEndReason) (db : Db) (s : Session)
    → find_first (is_session_of tenant id) db.sessions ≡ some s
    → is_active_session s.status ≡ true
    → end tenant id reason now db ≡ end_active s reason now db
unfolding end
end_run tenant id now reason db s found active = rw (found, end) (rw (active, end) refl)

end_over :
    (tenant : Option ℕ) (id now : ℕ) (reason : SessionEndReason) (db : Db) (s : Session)
    → find_first (is_session_of tenant id) db.sessions ≡ some s
    → is_active_session s.status ≡ false
    → end tenant id reason now db ≡ (done tt, db)
unfolding end
end_over tenant id now reason db s found over = rw (found, end) (rw (over, end) refl)

ended_over : (reason : SessionEndReason) → is_active_session (status_for reason) ≡ false
ended_over reason = ground arith

is_session_of-ended :
    (tenant : Option ℕ) (id : ℕ) (reason : SessionEndReason) (now : ℕ) (s : Session)
    → is_session_of tenant id (ended reason now s) ≡ is_session_of tenant id s
is_session_of-ended none id reason now s = refl
is_session_of-ended (some c) id reason now s = refl

==_self : (n : ℕ) → (n == n) ≡ true
==_self n = (==_iff n n).1 refl

-- Ending an active session closes the rows of its identifier, locks its device and records one
-- event; ending it again, for any reason, changes nothing.
pub end_twice :
    (tenant : Option ℕ) (id now later : ℕ) (reason other : SessionEndReason) (db : Db) (s : Session)
    → find_first (is_session_of tenant id) db.sessions ≡ some s
    → is_active_session s.status ≡ true
    → let db' = (end tenant id reason now db).1 in
      (db'.sessions ≡ update_where (λ x. x.id == s.id) (ended reason now) db.sessions)
      × All (λ d. d.id ≡ s.device_id → d.state ≡ DeviceState.locked) db'.devices
      × (db'.security_events
          ≡ db.security_events ++ session_ended_event s (db.ids db.issued) now ∷ [])
      × (end tenant id other later db' ≡ (done tt, db'))
unfolding end_active
end_twice tenant id now later reason other db s found active =
    let run = end_run tenant id now reason db s found active in
    let found' =
      find_first-update_where (is_session_of tenant id) (λ x. x.id == s.id) (ended reason now)
        db.sessions s (is_session_of-ended tenant id reason now) found in
    rw run (
      refl,
      locked_devices s.device_id db.devices,
      refl,
      end_over tenant id later other _ (ended reason now s) (rw (==_self s.id) at found')
          (ended_over reason),
    )
