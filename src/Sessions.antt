-- ===== src/Sessions.antt =====
-- apps/api/src/sessions/sessions.service.ts: the ends of a session. The paged lists for the
-- dashboard are left out.
pub mod Ends
use phone_control.Common.{
  ℕ, ◌≡◌, ◌≤◌, Bool, true, false, ◌&&◌, List, [], ◌∷◌, ◌++◌, Option, none, some, ◌==◌, ltb, any,
  if◌then◌else◌, is_some, find_first, keep, update_where, length, count_where, arith,
}
use phone_control.Rules.Geofence.{SessionState}
use phone_control.Store.Enums.{
  SessionStatus, SessionEndReason, DeviceState, SecurityEventType, Severity, is_active_session,
}
use phone_control.Store.{
  Session, SecurityEvent, Device, Db, M, Message, Error, ◌>>=◌, ◌>>◌, pure, throw, skip, read,
  modify, new_id, send, transaction,
}
use phone_control.Commands.{is_active_on, close_session, set_device_state}

-- `currentForDevice`, and every search for the active session of a device.
abbrev pub current_for_device : ℕ → Db → Option Session
current_for_device device db = find_first (is_active_on device) db.sessions

abbrev pub status_for : SessionEndReason → SessionStatus
status_for SessionEndReason.revoked = SessionStatus.revoked
status_for _ = SessionStatus.ended

abbrev pub ended : SessionEndReason → ℕ → Session → Session
ended reason now = close_session (status_for reason) reason now

abbrev pub update_session : ℕ → (Session → Session) → Db → Db
update_session id change db = record db {
  sessions = update_where (λ s. s.id == id) change db.sessions;
}

abbrev pub session_ended_event : Session → ℕ → ℕ → SecurityEvent
session_ended_event s id now = record {
  id = id;
  event_id = none;
  company_id = s.company_id;
  device_id = s.device_id;
  user_id = some s.user_id;
  session_id = some s.id;
  type = SecurityEventType.session_ended;
  severity = Severity.low;
  occurred_at = now;
  clock_suspect = false;
}

abbrev pub add_security_event : SecurityEvent → Db → Db
add_security_event e db = record db { security_events = db.security_events ++ e ∷ [] }

-- The company of the request limits the search of `prisma.db`, if there is one.
abbrev pub is_session_of : Option ℕ → ℕ → Session → Bool
is_session_of none id s = s.id == id
is_session_of (some company) id s = s.id == id && s.company_id == company

unfoldable pub end_active : Session → SessionEndReason → ℕ → M (Unit {0})
end_active s reason now = do
  id ← new_id
  modify (update_session s.id (ended reason now))
  modify (set_device_state s.device_id DeviceState.locked)
  modify (add_security_event (session_ended_event s id now))
  send (Message.session_changed (ended reason now s))

unfoldable pub end : Option ℕ → ℕ → SessionEndReason → ℕ → M (Unit {0})
unfolding end_active
end tenant id reason now = do
  found ← read (λ db. find_first (is_session_of tenant id) db.sessions)
  elim found [
    | none ↦ throw Error.not_found
    | some s ↦ if is_active_session s.status then end_active s reason now else skip
  ]

-- `companyId: { in: companyIds }`, when the list is given.
abbrev pub in_companies : Option (List ℕ) → ℕ → Bool
in_companies none company = true
in_companies (some companies) company = any (λ c. c == company) companies

abbrev pub is_overdue : ℕ → Option (List ℕ) → Session → Bool
is_overdue now companies s =
    is_active_session s.status && ltb s.expires_at now && in_companies companies s.company_id

abbrev pub has_session_id_in : List Session → Session → Bool
has_session_id_in overdue s = any (λ o. o.id == s.id) overdue

abbrev pub has_device_in : List Session → Device → Bool
has_device_in overdue d = any (λ o. o.device_id == d.id) overdue

-- The transaction of `expireOverdue`, after its early return.
expire_all : ℕ → List Session → M (List Session)
expire_all now [] = pure []
expire_all now (s ∷ rest) = do
  modify λ db. record db {
    sessions =
        update_where (has_session_id_in (s ∷ rest))
          (close_session SessionStatus.expired SessionEndReason.expired now) db.sessions;
    devices =
        update_where (has_device_in (s ∷ rest)) (λ d. record d { state = DeviceState.locking })
          db.devices;
  }
  pure (s ∷ rest)

unfoldable pub expire_overdue : ℕ → Option (List ℕ) → M (List Session)
unfolding expire_all
expire_overdue now companies = do
  overdue ← read (λ db. keep (is_overdue now companies) db.sessions)
  expire_all now overdue

pub record FixPosition : Type 0 where
  pub latitude : ℕ
  pub longitude : ℕ
  pub accuracy : Option ℕ

abbrev pub returned_at_position : ℕ → FixPosition → Session → Session
returned_at_position at position s = record s {
  state = SessionState.returned;
  returned_at = some at;
  returned_latitude = some position.latitude;
  returned_longitude = some position.longitude;
  returned_accuracy = position.accuracy;
}

unfoldable pub mark_returned : ℕ → ℕ → FixPosition → M (Unit {0})
mark_returned session at position = do
  found ← read (λ db. find_first (λ s. s.id == session) db.sessions)
  elim found [
    | none ↦ throw Error.record_not_found
    | some s ↦ do
      modify (update_session session (returned_at_position at position))
      send (Message.session_changed (returned_at_position at position s))
  ]
