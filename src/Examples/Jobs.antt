-- ===== src/Examples/Jobs.antt =====
-- The jobs of the worker.
use phone_control.Common.{ℕ, true, ◌≡◌, refl, [], ◌∷◌, none, some, arith, keep, All, count_where}
use phone_control.Rules.Clock.{parse_time}
use phone_control.Rules.Schedule.{
  next_lock_instant, operational_day_of, instant_for_local_time, resolve_day_rules, lock_instant_on,
  next_lock_from,
}
use phone_control.Store.Keys.{Key}
use phone_control.Store.{Db, Depot, Device, done}
use phone_control.Commands.{is_keyed}
use phone_control.Commands.Queue.{IsIdempotent}
use phone_control.Worker.{handle_depot, is_lockable, run}
use phone_control.Store.Keys.{Key, same_key_iff}
use phone_control.Worker.Locks.{handle_depot_locks, handle_depot_again}
use phone_control.Worker.Expiry.{Expires, run-Expires}
use phone_control.Examples.{db, utc, depot, phone}

abbrev yard : Depot
yard = record {
  id = 1;
  company_id = 1;
  latitude = 0;
  longitude = 0;
  schedule = depot;
  is_active = true;
  deleted_at = none;
}

abbrev parked : Device
parked = record phone { depot_id = some 1 }

abbrev yard_db : Db
yard_db = record db { devices = parked ∷ []; depots = yard ∷ [] }

-- 02:00 of day 5, and the runs of the two minutes after it.
abbrev due : ℕ
due = 439200000

abbrev after : ℕ
after = 439260000

abbrev later : ℕ
later = 439320000

yard_db-IsIdempotent : IsIdempotent yard_db
yard_db-IsIdempotent device key = ground arith

handle_depot_locks_example :
    ((handle_depot utc after 8 yard yard_db).0 ≡ done tt)
    × All
        (λ d.
          count_where
            (is_keyed d.id (Key.scheduled_lock due))
            (handle_depot utc after 8 yard yard_db).1.commands
          ≡ 1)
        (keep (is_lockable 1) yard_db.devices)
unfolding next_lock_instant operational_day_of parse_time instant_for_local_time resolve_day_rules
    lock_instant_on next_lock_from
handle_depot_locks_example =
    handle_depot_locks utc yard after 8 due yard_db refl (omega arith) yard_db-IsIdempotent

handle_depot_again_example :
    let db' = (handle_depot utc after 8 yard yard_db).1 in
    (handle_depot utc later 9 yard db').1.commands ≡ db'.commands
unfolding next_lock_instant operational_day_of parse_time instant_for_local_time resolve_day_rules
    lock_instant_on next_lock_from
handle_depot_again_example =
    handle_depot_again utc yard after 8 later 9 due yard_db refl (omega arith) refl (omega arith)

run-Expires_example :
    Expires utc after 8 (some (1 ∷ [])) yard_db.sessions (run utc after 8 (some (1 ∷ [])) yard_db)
run-Expires_example =
    run-Expires utc after 8 (some (1 ∷ [])) yard_db (tt, tt)
      (λ id. (
        λ h.
            let e : Key.scheduled_lock 5 ≡ Key.session_expired id =
              (same_key_iff (Key.scheduled_lock 5) (Key.session_expired id)).0 h in
            absurd (cc e),
        tt,
      ))
