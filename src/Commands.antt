-- ===== src/Commands.antt =====
-- apps/api/src/devices/commands.service.ts: the queue of commands for the phones. The payload of a
-- command and the text of its error are left out.
pub mod Queue
pub mod Orders
pub mod Selection
pub mod Delivery
pub mod Reports
use phone_control.Common.{
  ℕ, suc, ◌+◌, ◌*◌, ◌≡◌, ◌≤◌, Bool, true, false, ◌&&◌, ◌||◌, List, [], ◌∷◌, ◌++◌, Option, none,
  some, map, not, ◌==◌, ltb, leb, get_or, or_else, if◌then◌else◌, find_first, keep, update_where,
  any, count_where, refl,
}
use phone_control.Common.Sort.{sort_by, take}
use phone_control.Store.Enums.{
  CommandType, CommandStatus, SessionStatus, SessionEndReason, DeviceState, SecurityEventType,
  Severity, is_waiting, is_executed, is_active_session,
}
use phone_control.Store.Keys.{Key, has_key}
use phone_control.Store.{
  DeviceCommand, Device, Session, SecurityEvent, Db, M, Message, Error, ◌>>=◌, ◌>>◌, pure, throw,
  skip, read, modify, new_id, send, transaction,
}

-- DEFAULT_TTL_MINUTES
abbrev pub default_ttl_minutes : ℕ
default_ttl_minutes = 720

pub record EnqueueParams : Type 0 where
  pub company_id : ℕ
  pub device_id : ℕ
  pub command : CommandType
  pub ttl_minutes : Option ℕ
  pub created_by : Option ℕ
  pub idempotency_key : Option Key
  pub priority : Option ℕ

abbrev pub default_priority : CommandType → ℕ
default_priority CommandType.wipe_device = 100
default_priority CommandType.revoke_session = 100
default_priority CommandType.force_logout = 100
default_priority CommandType.lock_device = 90
default_priority CommandType.unlock_device = 80
default_priority _ = 10

-- The row that is inserted.
abbrev pub new_command : EnqueueParams → ℕ → ℕ → DeviceCommand
new_command params id now = record {
  id = id;
  company_id = params.company_id;
  device_id = params.device_id;
  command = params.command;
  status = CommandStatus.pending;
  priority = get_or params.priority (default_priority params.command);
  idempotency_key = params.idempotency_key;
  created_by = params.created_by;
  created_at = now;
  sent_at = none;
  delivered_at = none;
  executed_at = none;
  expires_at = now + get_or params.ttl_minutes default_ttl_minutes * 60000;
  attempts = 0;
}

-- A command of the device with the key, in any state.
abbrev pub is_keyed : ℕ → Key → DeviceCommand → Bool
is_keyed device key c = c.device_id == device && has_key key c.idempotency_key

abbrev pub find_keyed : ℕ → Option Key → List DeviceCommand → Option DeviceCommand
find_keyed device none commands = none
find_keyed device (some key) commands = find_first (is_keyed device key) commands

abbrev pub insert_command : DeviceCommand → Db → Db
insert_command c db = record db { commands = db.commands ++ c ∷ [] }

-- `deviceCommand.create` under the index device_commands_idempotency_uidx, with the handler of its
-- conflict. Nothing deletes commands, so the second search is made in the same database.
unfoldable pub create_command : EnqueueParams → ℕ → ℕ → M DeviceCommand
create_command params id now = do
  conflict ← read (λ db. find_keyed params.device_id params.idempotency_key db.commands)
  elim conflict [
    | none ↦ do
      modify (insert_command (new_command params id now))
      send (Message.wake_device params.device_id params.command)
      pure (new_command params id now)
    | some existing ↦ pure existing
  ]

-- `between` is what other requests write between the first search and the insertion.
unfoldable pub enqueue_amid : (between : Db → Db) → EnqueueParams → ℕ → M DeviceCommand
unfolding create_command
enqueue_amid between params now = do
  id ← new_id
  known ← read (λ db. find_keyed params.device_id params.idempotency_key db.commands)
  elim known [ some c ↦ pure c | none ↦ do modify between; create_command params id now ]

-- With no other request at work.
unfoldable pub enqueue : EnqueueParams → ℕ → M DeviceCommand
unfolding enqueue_amid
enqueue = enqueue_amid (λ db. db)

-- `status in (PENDING, SENT)` of the device, expired or not.
abbrev pub is_stale : ℕ → ℕ → DeviceCommand → Bool
is_stale device now c = c.device_id == device && is_waiting c.status && ltb c.expires_at now

abbrev pub is_deliverable : ℕ → ℕ → DeviceCommand → Bool
is_deliverable device now c = c.device_id == device && is_waiting c.status && leb now c.expires_at

abbrev pub expire : DeviceCommand → DeviceCommand
expire c = record c { status = CommandStatus.expired }

abbrev pub mark_sent : ℕ → DeviceCommand → DeviceCommand
mark_sent now c = record c {
  status = CommandStatus.sent;
  sent_at = some now;
  attempts = c.attempts + 1;
}

-- `priority desc, createdAt asc`
abbrev pub goes_before : DeviceCommand → DeviceCommand → Bool
goes_before a b =
    ltb b.priority a.priority || (a.priority == b.priority && ltb a.created_at b.created_at)

unfoldable pub select_pending : ℕ → ℕ → List DeviceCommand → List DeviceCommand
unfolding sort_by
select_pending device now commands =
    take 50 (sort_by goes_before (keep (is_deliverable device now) commands))

-- `id in ids`
abbrev pub has_id_in : List DeviceCommand → DeviceCommand → Bool
has_id_in selected c = any (λ s. s.id == c.id) selected

abbrev set_commands : List DeviceCommand → Db → Db
set_commands commands db = record db { commands = commands }

unfoldable pub pull_pending : ℕ → ℕ → M (List DeviceCommand)
unfolding select_pending
pull_pending device now = do
  modify (λ db. set_commands (update_where (is_stale device now) expire db.commands) db)
  selected ← read (λ db. select_pending device now db.commands)
  modify (λ db. set_commands (update_where (has_id_in selected) (mark_sent now) db.commands) db)
  pure selected

-- What a phone reports: EXECUTED or FAILED.
pub data Outcome : Type 0 where
  executed failed : Outcome

abbrev pub reported : Outcome → ℕ → DeviceCommand → DeviceCommand
reported executed now c = record c {
  status = CommandStatus.executed;
  executed_at = some now;
  delivered_at = or_else c.delivered_at (some now);
}
reported failed now c = record c {
  status = CommandStatus.failed;
  executed_at = none;
  delivered_at = or_else c.delivered_at (some now);
}

-- An active session of the device.
abbrev pub is_active_on : ℕ → Session → Bool
is_active_on device s = s.device_id == device && is_active_session s.status

abbrev pub close_session : SessionStatus → SessionEndReason → ℕ → Session → Session
close_session status reason now s = record s {
  status = status;
  ended_at = some now;
  end_reason = some reason;
}

abbrev pub close_sessions_of : ℕ → (Session → Session) → Db → Db
close_sessions_of device change db = record db {
  sessions = update_where (is_active_on device) change db.sessions;
}

abbrev pub set_device_state : ℕ → DeviceState → Db → Db
set_device_state device state db = record db {
  devices = update_where (λ d. d.id == device) (λ d. record d { state = state }) db.devices;
}

apply_side_effects : CommandType → ℕ → ℕ → Db → Db
apply_side_effects CommandType.lock_device device now db =
    set_device_state device DeviceState.locked (
      close_sessions_of device
        (close_session SessionStatus.ended SessionEndReason.scheduled_lock now) db)
apply_side_effects CommandType.force_logout device now db =
    set_device_state device DeviceState.locked (
      close_sessions_of device (close_session SessionStatus.revoked SessionEndReason.revoked now)
        db)
apply_side_effects CommandType.revoke_session device now db =
    set_device_state device DeviceState.locked (
      close_sessions_of device (close_session SessionStatus.revoked SessionEndReason.revoked now)
        db)
apply_side_effects CommandType.unlock_device device now db =
    set_device_state device DeviceState.unknown db
apply_side_effects _ device now db = db

abbrev pub event_type_of : Outcome → CommandType → SecurityEventType
event_type_of executed CommandType.lock_device = SecurityEventType.lock_device
event_type_of executed CommandType.unlock_device = SecurityEventType.unlock_device
event_type_of executed _ = SecurityEventType.command_failed
event_type_of failed _ = SecurityEventType.command_failed

abbrev pub severity_of : Outcome → Severity
severity_of executed = Severity.low
severity_of failed = Severity.medium

abbrev pub record_report : ℕ → DeviceCommand → Outcome → ℕ → M (Unit {0})
record_report device c outcome now = do
  id ← new_id
  modify λ db. record db {
    security_events =
        db.security_events
        ++ record {
          id = id;
          event_id = none;
          company_id = c.company_id;
          device_id = device;
          user_id = none;
          session_id = none;
          type = event_type_of outcome c.command;
          severity = severity_of outcome;
          occurred_at = now;
          clock_suspect = false;
        }
          ∷ [];
  }

abbrev pub is_command_of : ℕ → ℕ → DeviceCommand → Bool
is_command_of device id c = c.id == id && c.device_id == device

abbrev pub write_report : DeviceCommand → Outcome → ℕ → Db → Db
write_report c outcome now db =
    set_commands (update_where (λ x. x.id == c.id) (reported outcome now) db.commands) db

side_effects_of : Outcome → DeviceCommand → ℕ → Db → Db
unfolding apply_side_effects
side_effects_of executed c now db = apply_side_effects c.command c.device_id now db
side_effects_of failed c now db = db

unfoldable pub report_result : ℕ → ℕ → Outcome → ℕ → M (Unit {0})
unfolding side_effects_of
report_result device command_id outcome now = do
  found ← read (λ db. find_first (is_command_of device command_id) db.commands)
  elim found [
    | none ↦ throw Error.not_found
    | some c ↦ if is_executed c.status then skip else do
      modify (λ db. side_effects_of outcome c now (write_report c outcome now db))
      record_report device c outcome now
  ]
