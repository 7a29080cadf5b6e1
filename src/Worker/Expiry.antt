-- ===== src/Worker/Expiry.antt =====
-- A run of the job: a depot that fails stops neither the others nor the end of the overdue sessions.
use mathlib.Core.Path.{subst}
use phone_control.Common.{
  ℕ, ◌-◌, ◌*◌, ◌≡◌, ◌∙◌, List, [], ◌∷◌, Option, none, some, refl, ap, sym, inl, inr, Bool-cases,
  All, ltb, keep, update_where,
}
use phone_control.Common.Ids.{DistinctIds, All-of_Within, All-Within}
use phone_control.Rules.Schedule.{Calendar, Checked-cases, next_lock_instant}
use phone_control.Store.Enums.{CommandType, SessionStatus, SessionEndReason}
use phone_control.Store.Keys.{Key, same_key_iff}
use phone_control.Store.{Db, Session, Depot, done, raised, continue-done, Reply}
use phone_control.Commands.{close_session}
use phone_control.Commands.Orders.{IsOnly, HasOrder, counted-HasOrder}
use phone_control.Sessions.{is_overdue, expire_overdue}
use phone_control.Sessions.Ends.{expire_overdue_exact, expire_overdue-commands}
use phone_control.Worker.{
  is_lockable, scheduled_order, logout_order, window_minutes, is_open_depot, enqueue_all,
  handle_depot, handle_depots, logged, expire_sessions, run,
}
use phone_control.Worker.Orders.{enqueue_all-rest, enqueue_all-Ordered, enqueue_all-IsOnly}
use phone_control.Worker.Locks.{lock_depot_run}

module _ (calendar : Calendar) (now clock : ℕ) where
  logged-answers : (x : Reply (Unit {0}) × Db) → (logged x).0 ≡ done tt
  logged-answers (done _, db) = refl
  logged-answers (raised _, db) = refl

  logged-db : (x : Reply (Unit {0}) × Db) → (logged x).1 ≡ x.1
  logged-db (done _, db) = refl
  logged-db (raised _, db) = refl

  handle_depot-sessions :
      (depot : Depot) (db : Db)
      → (handle_depot calendar now clock depot db).1.sessions ≡ db.sessions
  unfolding handle_depot
  handle_depot-sessions depot db =
      let from = now - window_minutes * 60000 in
      elim (Checked-cases (next_lock_instant calendar depot.schedule from 8)) [
        | inr (reason, wrong) ↦ rw (wrong, handle_depot) refl
        | inl (none, quiet) ↦ rw (quiet, handle_depot) refl
        | inl (some due, found) ↦ elim (Bool-cases (ltb now due)) [
          | inl later ↦ rw (found, later, handle_depot) refl
          | inr past ↦
              rw (found, past, handle_depot)
                ((lock_depot_run clock depot.id due db).1.1
                  ∙ (enqueue_all-rest (scheduled_order due) (λ d. Key.scheduled_lock due) clock
                      (keep (is_lockable depot.id) db.devices) db).1)
        ]
      ]

  -- Whatever is under the key of an expired session is an order to log out.
  abbrev pub IsLogouts : Db → Type 0
  IsLogouts db = (id : ℕ) → IsOnly CommandType.force_logout (Key.session_expired id) db.commands

  handle_depot-IsLogouts :
      (depot : Depot) (db : Db)
      → IsLogouts db
      → IsLogouts (handle_depot calendar now clock depot db).1
  unfolding handle_depot
  handle_depot-IsLogouts depot db h =
      let from = now - window_minutes * 60000 in
      elim (Checked-cases (next_lock_instant calendar depot.schedule from 8)) [
        | inr (reason, wrong) ↦ rw (wrong, handle_depot) h
        | inl (none, quiet) ↦ rw (quiet, handle_depot) h
        | inl (some due, found) ↦ elim (Bool-cases (ltb now due)) [
          | inl later ↦ rw (found, later, handle_depot) h
          | inr past ↦
              rw (found, past, handle_depot)
                (λ id. rw (lock_depot_run clock depot.id due db).1.0 (
                  enqueue_all-IsOnly (scheduled_order due) (λ d. Key.scheduled_lock due) clock
                    CommandType.force_logout (Key.session_expired id)
                    (λ d k.
                      let e =
                        (same_key_iff (Key.scheduled_lock due) (Key.session_expired id)).0 k in
                      cc e)
                    (keep (is_lockable depot.id) db.devices) db (h id)))
        ]
      ]

  handle_depots-IsLogouts :
      (depots : List Depot) (db : Db)
      → IsLogouts db
      → IsLogouts (handle_depots calendar now clock depots db).1
  unfolding handle_depots
  handle_depots-IsLogouts [] db h = h
  handle_depots-IsLogouts (d ∷ rest) db h =
      let here = handle_depot calendar now clock d db in
      rw
        (continue-done (logged here) tt (λ _. handle_depots calendar now clock rest)
          (logged-answers here))
        (handle_depots-IsLogouts rest (logged here).1
          (subst IsLogouts (sym (logged-db here)) (handle_depot-IsLogouts d db h)))

  handle_depots_run :
      (depots : List Depot) (db : Db)
      → ((handle_depots calendar now clock depots db).0 ≡ done tt)
        × ((handle_depots calendar now clock depots db).1.sessions ≡ db.sessions)
  unfolding handle_depots
  handle_depots_run [] db = (refl, refl)
  handle_depots_run (d ∷ rest) db =
      let here = handle_depot calendar now clock d db in
      let (t, s) = handle_depots_run rest (logged here).1 in
      rw
        (continue-done (logged here) tt (λ _. handle_depots calendar now clock rest)
          (logged-answers here))
        (t, s ∙ ap (λ x. x.sessions) (logged-db here) ∙ handle_depot-sessions d db)

  all_keyed :
      (list : List Session)
      → All (λ s. (logout_order s).idempotency_key ≡ some (Key.session_expired s.id)) list
  all_keyed [] = tt
  all_keyed (s ∷ rest) = (refl, all_keyed rest)

  -- What the last step leaves, on a table with a primary key.
  abbrev pub Expires : Option (List ℕ) → List Session → Reply (Unit {0}) × Db → Type 0
  Expires companies sessions result =
      (result.0 ≡ done tt)
      × (result.1.sessions
          ≡ update_where (is_overdue now companies)
              (close_session SessionStatus.expired SessionEndReason.expired now) sessions)
      × All
          (λ s.
            HasOrder CommandType.force_logout s.device_id (Key.session_expired s.id)
              result.1.commands)
          (keep (is_overdue now companies) sessions)

  expire_sessions-Expires :
      (companies : Option (List ℕ)) (db : Db)
      → DistinctIds (λ s. s.id) db.sessions
      → IsLogouts db
      → Expires companies db.sessions (expire_sessions calendar now clock companies db)
  unfolding expire_sessions
  expire_sessions-Expires companies db ids logouts =
      let overdue = keep (is_overdue now companies) db.sessions in
      let (answer, sessions, _) = expire_overdue_exact now companies db ids in
      let db' = (expire_overdue now companies db).1 in
      let key : Session → Key = λ s. Key.session_expired s.id in
      let rest = enqueue_all-rest logout_order key clock overdue db' in
      rw
        (continue-done (expire_overdue now companies db) overdue (enqueue_all clock logout_order)
          answer)
        (
          rest.0,
          rest.1 ∙ sessions,
          All-of_Within _ overdue (λ s w.
              counted-HasOrder CommandType.force_logout s.device_id (key s) _
                (All-Within _ overdue s
                  (enqueue_all-Ordered logout_order key clock overdue db' (all_keyed overdue)) w)
                (enqueue_all-IsOnly logout_order key clock CommandType.force_logout (key s)
                  (λ x k. refl) overdue db'
                  (subst (IsOnly CommandType.force_logout (key s))
                    (sym (expire_overdue-commands now companies db)) (logouts s.id)))),
        )

  -- A run on a table of sessions with distinct identifiers, where the queue has no other command than
  -- orders to log out under the keys of expired sessions, always answers, whatever the schedules of
  -- the depots. Then exactly the sessions that were active, overdue and of the companies in question
  -- are expired, the others are unchanged, and for each of the former an order to log out its phone
  -- is in the queue, under the key of the session.
  pub run-Expires :
      (companies : Option (List ℕ)) (db : Db)
      → DistinctIds (λ s. s.id) db.sessions
      → IsLogouts db
      → Expires companies db.sessions (run calendar now clock companies db)
  unfolding run
  run-Expires companies db ids logouts =
      let depots = keep (is_open_depot companies) db.depots in
      let (t, same) = handle_depots_run depots db in
      let db' = (handle_depots calendar now clock depots db).1 in
      let step =
        continue-done (handle_depots calendar now clock depots db) tt
          (λ _. expire_sessions calendar now clock companies) t in
      rw step (
        subst (λ ss. Expires companies ss (expire_sessions calendar now clock companies db')) same
          (expire_sessions-Expires companies db' (subst (DistinctIds (λ s. s.id)) (sym same) ids)
            (handle_depots-IsLogouts depots db logouts)))
