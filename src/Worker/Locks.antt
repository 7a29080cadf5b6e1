-- ===== src/Worker/Locks.antt =====
-- The phones of a depot are locked once for each lock instant.
use mathlib.Core.Path.{subst}
use phone_control.Common.{
  ℕ, ◌-◌, ◌*◌, ◌≡◌, ◌≤◌, ◌∙◌, List, [], ◌∷◌, some, arith, refl, sym, count_where, All, false, ltb,
  keep,
}
use phone_control.Common.Ids.{All-Within, All-of_Within}
use phone_control.Rules.Schedule.{Calendar, next_lock_instant, ok}
use phone_control.Store.Keys.{Key}
use phone_control.Store.{Db, Session, Depot, Device, done, continue-done}
use phone_control.Alerts.Effects.{Spares, raise-Spares}
use phone_control.Alerts.{raise}
use phone_control.Commands.{is_keyed}
use phone_control.Commands.Queue.{IsIdempotent}
use phone_control.Worker.{
  is_lockable, is_not_returned, scheduled_order, not_returned_alert, window_minutes, enqueue_all,
  raise_all, report_not_returned, lock_devices, lock_depot, handle_depot,
}
use phone_control.Worker.Orders.{
  enqueue_all-rest, enqueue_all-Ordered, enqueue_all-IsIdempotent, enqueue_all-again,
}

raise_all-Spares :
    (depot : ℕ) (sessions : List Session) (db : Db)
    → ((raise_all depot sessions db).0 ≡ done tt) × Spares db (raise_all depot sessions db).1
unfolding raise_all
raise_all-Spares depot [] db = (refl, (refl, refl, refl, refl))
raise_all-Spares depot (s ∷ rest) db =
    let ((a, answer), (c, ss, d, p)) = raise-Spares (not_returned_alert depot s) db in
    let next = (raise (not_returned_alert depot s) db).1 in
    let (t, (c', ss', d', p')) = raise_all-Spares depot rest next in
    rw (continue-done (raise (not_returned_alert depot s) db) a (λ _. raise_all depot rest) answer)
      (t, (c' ∙ c, ss' ∙ ss, d' ∙ d, p' ∙ p))

module _ (clock : ℕ) where
  abbrev key_at : ℕ → Device → Key
  key_at due d = Key.scheduled_lock due

  -- The orders, and then the alerts, which leave the orders alone.
  lock_devices_run :
      (depot due : ℕ) (ds : List Device) (db : Db)
      → ((lock_devices clock depot due ds db).0 ≡ done tt)
        × Spares
            (enqueue_all clock (scheduled_order due) ds db).1
            (lock_devices clock depot due ds db).1
  unfolding lock_devices report_not_returned enqueue_all
  lock_devices_run depot due [] db = (refl, (refl, refl, refl, refl))
  lock_devices_run depot due (d ∷ ds) db =
      let run = enqueue_all clock (scheduled_order due) (d ∷ ds) db in
      rw
        (continue-done run tt (λ _. report_not_returned depot)
          (enqueue_all-rest (scheduled_order due) (key_at due) clock (d ∷ ds) db).0)
        (raise_all-Spares depot (keep (is_not_returned depot) run.1.sessions) run.1)

  pub lock_depot_run :
      (depot due : ℕ) (db : Db)
      → ((lock_depot clock depot due db).0 ≡ done tt)
        × Spares
            (enqueue_all clock (scheduled_order due) (keep (is_lockable depot) db.devices) db).1
            (lock_depot clock depot due db).1
  unfolding lock_depot
  lock_depot_run depot due db = lock_devices_run depot due (keep (is_lockable depot) db.devices) db

  all_keyed :
      (due : ℕ) (ds : List Device)
      → All (λ d. (scheduled_order due d).idempotency_key ≡ some (key_at due d)) ds
  all_keyed due [] = tt
  all_keyed due (d ∷ ds) = (refl, all_keyed due ds)

  -- Each phone of the depot has the order in the queue afterwards.
  lock_depot-Ordered :
      (depot due : ℕ) (db : Db)
      → All
          (λ d.
            1
            ≤ count_where (is_keyed d.id (key_at due d)) (lock_depot clock depot due db).1.commands)
          (keep (is_lockable depot) db.devices)
  lock_depot-Ordered depot due db =
      let ds = keep (is_lockable depot) db.devices in
      subst (λ cs. All (λ d. 1 ≤ count_where (is_keyed d.id (key_at due d)) cs) ds)
        (sym (lock_depot_run depot due db).1.0)
        (enqueue_all-Ordered (scheduled_order due) (key_at due) clock ds db (all_keyed due ds))

  lock_depot-IsIdempotent :
      (depot due : ℕ) (db : Db) → IsIdempotent db → IsIdempotent (lock_depot clock depot due db).1
  lock_depot-IsIdempotent depot due db h device key =
      let ds = keep (is_lockable depot) db.devices in
      rw (lock_depot_run depot due db).1.0
        (enqueue_all-IsIdempotent (scheduled_order due) (key_at due) clock ds db h device key)

  lock_depot-again :
      (depot due : ℕ) (db : Db)
      → All
          (λ d. 1 ≤ count_where (is_keyed d.id (key_at due d)) db.commands)
          (keep (is_lockable depot) db.devices)
      → (lock_depot clock depot due db).1.commands ≡ db.commands
  lock_depot-again depot due db h =
      let ds = keep (is_lockable depot) db.devices in
      (lock_depot_run depot due db).1.0
      ∙ enqueue_all-again (scheduled_order due) (key_at due) clock ds db (all_keyed due ds) h

module _ (calendar : Calendar) (depot : Depot) (now clock due : ℕ) (db : Db) where
  handle_depot_run :
      next_lock_instant calendar depot.schedule (now - window_minutes * 60000) 8 ≡ ok (some due)
      → due ≤ now
      → handle_depot calendar now clock depot db ≡ lock_depot clock depot.id due db
  unfolding handle_depot
  handle_depot_run found past =
      let passed : ltb now due ≡ false = ground arith in rw (found, passed, handle_depot) refl

  -- When the next lock instant after the start of the window has come, the run on a depot answers,
  -- and afterwards every enrolled phone of the depot has exactly one order for that instant, as long
  -- as there was at most one command for each key of a phone before.
  pub handle_depot_locks :
      next_lock_instant calendar depot.schedule (now - window_minutes * 60000) 8 ≡ ok (some due)
      → due ≤ now
      → IsIdempotent db
      → ((handle_depot calendar now clock depot db).0 ≡ done tt)
        × All
            (λ d.
              count_where
                (is_keyed d.id (Key.scheduled_lock due))
                (handle_depot calendar now clock depot db).1.commands
              ≡ 1)
            (keep (is_lockable depot.id) db.devices)
  handle_depot_locks found past h =
      let ds = keep (is_lockable depot.id) db.devices in
      let queued = lock_depot-Ordered clock depot.id due db in
      let once = lock_depot-IsIdempotent clock depot.id due db h in
      rw (handle_depot_run found past) (
        (lock_depot_run clock depot.id due db).0,
        All-of_Within _ ds (λ d w.
            let q = All-Within _ ds d queued w in
            omega (arith, q, once d.id (Key.scheduled_lock due))),
      )

-- A second run that finds the same lock instant, at whatever time, adds no command.
pub handle_depot_again :
    (calendar : Calendar) (depot : Depot) (now clock later clock' due : ℕ) (db : Db)
    → next_lock_instant calendar depot.schedule (now - window_minutes * 60000) 8 ≡ ok (some due)
    → due ≤ now
    → next_lock_instant calendar depot.schedule (later - window_minutes * 60000) 8 ≡ ok (some due)
    → due ≤ later
    → let db' = (handle_depot calendar now clock depot db).1 in
      (handle_depot calendar later clock' depot db').1.commands ≡ db'.commands
handle_depot_again calendar depot now clock later clock' due db found past found' past' =
    let db' = (lock_depot clock depot.id due db).1 in
    let run = (lock_depot_run clock depot.id due db).1.2 in
    let ds = keep (is_lockable depot.id) db.devices in
    let written = (enqueue_all-rest (scheduled_order due) (key_at clock due) clock ds db).2 in
    rw
      (
        handle_depot_run calendar depot now clock due db found past,
        handle_depot_run calendar depot later clock' due db' found' past',
      )
      (lock_depot-again clock' depot.id due db' (
        subst
          (λ devices.
            All (λ d. 1 ≤ count_where (is_keyed d.id (Key.scheduled_lock due)) db'.commands)
              (keep (is_lockable depot.id) devices))
          (sym (run ∙ written)) (lock_depot-Ordered clock depot.id due db)))
