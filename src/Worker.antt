-- ===== src/Worker.antt =====
-- apps/api/src/worker/lock-scheduler.job.ts: the locks at the lock hour of a depot and the end of
-- the sessions that are overdue. The lock over Redis that lets one server run the job, the logs and
-- the texts are left out, and so is the policy that `reportNotReturned` reads and does not use.
pub mod Orders
pub mod Locks
pub mod Expiry
use phone_control.Common.{
  ℕ, ◌-◌, ◌*◌, Bool, true, false, ◌&&◌, List, [], ◌∷◌, Option, none, some, ◌==◌, ltb, not, is_some,
  if◌then◌else◌, keep,
}
use phone_control.Rules.Geofence.{SessionState}
use phone_control.Rules.Schedule.{Calendar, next_lock_instant, ok, misconfigured}
use phone_control.Store.Enums.{
  CommandType, EnrollmentStatus, AlertType, Severity, is_active_session, is_enrolled,
}
use phone_control.Store.Keys.{Key}
use phone_control.Store.{
  Device, Depot, Session, Db, M, Reply, done, raised, Error, ◌>>=◌, ◌>>◌, pure, throw, skip, read,
}
use phone_control.Commands.{EnqueueParams, enqueue}
use phone_control.Alerts.{RaiseAlertInput, raise}
use phone_control.Sessions.{expire_overdue, in_companies}

-- WINDOW_MINUTES
abbrev pub window_minutes : ℕ
window_minutes = 10

abbrev pub in_depot : ℕ → Option ℕ → Bool
in_depot depot none = false
in_depot depot (some d) = d == depot

-- A phone of the depot that is locked at the hour.
abbrev pub is_lockable : ℕ → Device → Bool
is_lockable depot d =
    in_depot depot d.depot_id
    && not (is_some d.deleted_at)
    && is_enrolled d.enrollment_status
    && not (is_some d.revoked_at)

abbrev pub scheduled_order : ℕ → Device → EnqueueParams
scheduled_order due d = record {
  company_id = d.company_id;
  device_id = d.id;
  command = CommandType.lock_device;
  ttl_minutes = some 720;
  created_by = none;
  idempotency_key = some (Key.scheduled_lock due);
  priority = some 90;
}

abbrev pub is_active_state : SessionState → Bool
is_active_state SessionState.active = true
is_active_state _ = false

abbrev pub is_not_returned : ℕ → Session → Bool
is_not_returned depot s =
    in_depot depot s.depot_id
    && is_active_session s.status
    && is_active_state s.state
    && not (is_some s.returned_at)

abbrev pub not_returned_alert : ℕ → Session → RaiseAlertInput
not_returned_alert depot s = record {
  company_id = s.company_id;
  type = AlertType.not_returned;
  severity = Severity.medium;
  device_id = some s.device_id;
  user_id = some s.user_id;
  depot_id = some depot;
  session_id = some s.id;
  latitude = none;
  longitude = none;
  dedupe_key = some (Key.not_returned s.id);
}

abbrev pub logout_order : Session → EnqueueParams
logout_order s = record {
  company_id = s.company_id;
  device_id = s.device_id;
  command = CommandType.force_logout;
  ttl_minutes = some 720;
  created_by = none;
  idempotency_key = some (Key.session_expired s.id);
  priority = some 100;
}

abbrev pub is_open_depot : Option (List ℕ) → Depot → Bool
is_open_depot companies d =
    not (is_some d.deleted_at) && d.is_active && in_companies companies d.company_id

-- `clock` is what the queue reads when it inserts a command.
module _ (clock : ℕ) where
  -- The loops over rows that were read before: one order, or one alert, for each.
  unfoldable pub enqueue_all {ℓ} : {A : Type ℓ} → (A → EnqueueParams) → List A → M (Unit {0})
  enqueue_all order [] = skip
  enqueue_all order (a ∷ rest) = do _ ← enqueue (order a) clock; enqueue_all order rest

unfoldable pub raise_all : ℕ → List Session → M (Unit {0})
raise_all depot [] = skip
raise_all depot (s ∷ rest) = do _ ← raise (not_returned_alert depot s); raise_all depot rest

unfoldable pub report_not_returned : ℕ → M (Unit {0})
unfolding raise_all
report_not_returned depot = do
  sessions ← read (λ db. keep (is_not_returned depot) db.sessions)
  raise_all depot sessions

module _ (clock : ℕ) where
  -- After the early return when the depot has no phone.
  unfoldable pub lock_devices : ℕ → ℕ → List Device → M (Unit {0})
  unfolding enqueue_all report_not_returned
  lock_devices depot due [] = skip
  lock_devices depot due (d ∷ ds) = do
    enqueue_all clock (scheduled_order due) (d ∷ ds)
    report_not_returned depot

  unfoldable pub lock_depot : ℕ → ℕ → M (Unit {0})
  unfolding lock_devices
  lock_depot depot due = do
    devices ← read (λ db. keep (is_lockable depot) db.devices)
    lock_devices depot due devices

-- The `try` around one depot: what it wrote stays.
abbrev pub logged : Reply (Unit {0}) × Db → Reply (Unit {0}) × Db
logged (done _, db) = (done tt, db)
logged (raised _, db) = (done tt, db)

-- `run` reads the hour once.
module _ (calendar : Calendar) (now clock : ℕ) where
  unfoldable pub handle_depot : Depot → M (Unit {0})
  unfolding lock_depot
  handle_depot depot =
      elim (next_lock_instant calendar depot.schedule (now - window_minutes * 60000) 8) [
        | misconfigured reason ↦ throw Error.config_error
        | ok none ↦ skip
        | ok (some due) ↦ if ltb now due then skip else lock_depot clock depot.id due
      ]

  unfoldable pub handle_depots : List Depot → M (Unit {0})
  unfolding handle_depot
  handle_depots [] = skip
  handle_depots (d ∷ rest) = do (λ db. logged (handle_depot d db)); handle_depots rest

  unfoldable pub expire_sessions : Option (List ℕ) → M (Unit {0})
  unfolding enqueue_all
  expire_sessions companies = do
    expired ← expire_overdue now companies
    enqueue_all clock logout_order expired

  unfoldable pub run : Option (List ℕ) → M (Unit {0})
  unfolding handle_depots expire_sessions
  run companies = do
    depots ← read (λ db. keep (is_open_depot companies) db.depots)
    handle_depots depots
    expire_sessions companies
