-- ===== src/ScreenShare/Service.antt =====
-- apps/api/src/screen-share/screen-share.service.ts. The reason and the detail of a session, the
-- audit records and the views are left out; the frame itself is a number with its length.
pub mod Consent
pub mod Exclusive
pub mod Lasting
pub mod Readings
use phone_control.Common.{
  ℕ, zero, suc, keep, ◌+◌, ◌-◌, ◌*◌, ◌/◌, ◌≤◌, ◌≡◌, Bool, true, false, not, ◌&&◌, List, [], ◌∷◌,
  ◌++◌, Option, none, some, ◌==◌, ltb, leb, if◌then◌else◌, is_some, find_first, update_where,
  count_where, arith,
}
use phone_control.Common.Sort.{sort_by, take}
use phone_control.Store.Enums.{ScreenShareState, CommandType, is_ongoing}
use phone_control.Store.{
  ScreenShareSession, Session, Device, Db, M, Message, Error, ◌>>=◌, ◌>>◌, pure, throw, skip, read,
  modify, new_id, send,
}
use phone_control.Commands.{EnqueueParams, enqueue, is_active_on}
use phone_control.ScreenShare.Rules.{
  ScreenShareEvent, driver_accepts, driver_refuses, is_terminal, transition, accepts_frames,
  TransitionResult,
}

-- The limits of apps/api/src/config, in milliseconds and bytes.
pub record Limits : Type 0 where
  pub response_timeout_ms : ℕ
  pub max_duration_ms : ℕ
  pub max_frame_bytes : ℕ

abbrev pub update_share : ℕ → (ScreenShareSession → ScreenShareSession) → Db → Db
update_share id change db = record db {
  screen_shares = update_where (λ s. s.id == id) change db.screen_shares;
}

abbrev pub broadcast : ScreenShareSession → M (Unit {0})
broadcast s = send (Message.screen_share_changed s.requested_by s)

abbrev pub closed_as : ScreenShareState → ℕ → ScreenShareSession → ScreenShareSession
closed_as state now s = record s { state = state; ended_at = some now }

-- `refresh`: the session if it is alive, closed first if its deadline has passed.
refresh : ScreenShareSession → ℕ → M (Option ScreenShareSession)
refresh s now =
    if is_terminal s.state then pure none else if ltb now s.expires_at then pure (some s) else do
      modify (update_share s.id (closed_as ScreenShareState.expired now))
      broadcast (closed_as ScreenShareState.expired now s)
      pure none

abbrev pub is_ongoing_on : ℕ → ScreenShareSession → Bool
is_ongoing_on device s = s.device_id == device && is_ongoing s.state

-- `orderBy: { requestedAt: 'desc' }`
abbrev pub newer : ScreenShareSession → ScreenShareSession → Bool
newer a b = ltb b.requested_at a.requested_at

abbrev pub latest_ongoing : ℕ → List ScreenShareSession → Option ScreenShareSession
latest_ongoing device shares = find_first (is_ongoing_on device) (sort_by newer shares)

unfoldable pub find_ongoing : ℕ → ℕ → M (Option ScreenShareSession)
unfolding refresh
find_ongoing device now = do
  candidate ← read (λ db. latest_ongoing device db.screen_shares)
  elim candidate [ none ↦ pure none | some s ↦ refresh s now ]

pub record Request : Type 0 where
  pub company_id : ℕ
  pub device_id : ℕ
  pub admin_id : ℕ

-- What `prisma.db` sees (apps/api/src/prisma/tenant-extension.ts): the rows of the company of the
-- context, and all rows where the context crosses the companies.
abbrev pub is_seen : (tenant : Option ℕ) (company : ℕ) → Bool
is_seen none company = true
is_seen (some tenant) company = company == tenant

abbrev pub is_live_device : (tenant : Option ℕ) (id : ℕ) → Device → Bool
is_live_device tenant id d = d.id == id && is_seen tenant d.company_id && not (is_some d.deleted_at)

abbrev pub new_share : Request → Limits → Option ℕ → ℕ → ℕ → ScreenShareSession
new_share r limits user id now = record {
  id = id;
  company_id = r.company_id;
  device_id = r.device_id;
  user_id = user;
  requested_by = r.admin_id;
  state = ScreenShareState.requested;
  requested_at = now;
  responded_at = none;
  started_at = none;
  ended_at = none;
  expires_at = now + limits.response_timeout_ms;
  frame_count = 0;
}

abbrev pub user_of : Option Session → Option ℕ
user_of none = none
user_of (some s) = some s.user_id

abbrev pub insert_share : ScreenShareSession → Db → Db
insert_share s db = record db { screen_shares = db.screen_shares ++ s ∷ [] }

-- `Math.ceil(responseTimeoutMs / 60_000)`
abbrev pub ceil_minutes : ℕ → ℕ
ceil_minutes ms = (ms + 59999) / 60000

-- `orderBy: { startedAt: 'desc' }`
abbrev pub started_later : Session → Session → Bool
started_later a b = ltb b.started_at a.started_at

abbrev pub latest_active : (tenant : Option ℕ) (device : ℕ) → Db → Option Session
latest_active tenant device db =
    find_first (λ s. is_active_on device s && is_seen tenant s.company_id)
      (sort_by started_later db.sessions)

-- From the creation of the session on.
create_share : (tenant : Option ℕ) → Request → Limits → ℕ → M ScreenShareSession
create_share tenant r limits now = do
  session ← read (latest_active tenant r.device_id)
  id ← new_id
  let share = new_share r limits (user_of session) id now
  modify (insert_share share)
  _ ←
      enqueue
        (record {
          company_id = r.company_id;
          device_id = r.device_id;
          command = CommandType.request_screen_share;
          ttl_minutes = some (ceil_minutes limits.response_timeout_ms);
          created_by = some r.admin_id;
          idempotency_key = none;
          priority = some 0;
        })
        now
  pure share

-- `tenant` is the company of the context.
unfoldable pub request : (tenant : Option ℕ) → Request → Limits → ℕ → M ScreenShareSession
unfolding create_share
request tenant r limits now = do
  device ← read (λ db. find_first (is_live_device tenant r.device_id) db.devices)
  elim device [
    | none ↦ throw Error.not_found
    | some _ ↦ do
      ongoing ← find_ongoing r.device_id now
      elim ongoing [ some _ ↦ throw Error.bad_request | none ↦ create_share tenant r limits now ]
  ]

abbrev pub is_share_of : ℕ → ℕ → ScreenShareSession → Bool
is_share_of device id s = s.id == id && s.device_id == device

abbrev pub is_share_in : ℕ → ℕ → ScreenShareSession → Bool
is_share_in company id s = s.id == id && s.company_id == company

abbrev pub load : (ScreenShareSession → Bool) → M ScreenShareSession
load test = do
  found ← read (λ db. find_first test db.screen_shares)
  elim found [ none ↦ throw Error.not_found | some s ↦ pure s ]

abbrev pub answered : Bool → ScreenShareState → Limits → ℕ → ScreenShareSession → ScreenShareSession
answered true state limits now s = record s {
  state = state;
  responded_at = some now;
  started_at = some now;
  expires_at = now + limits.max_duration_ms;
}
answered false state limits now s = record s {
  state = state;
  responded_at = some now;
  ended_at = some now;
}

abbrev pub write_share :
    ScreenShareSession → (ScreenShareSession → ScreenShareSession) → M ScreenShareSession
write_share s change = do modify (update_share s.id change); broadcast (change s); pure (change s)

abbrev pub answer_event : Bool → ScreenShareEvent
answer_event true = driver_accepts
answer_event false = driver_refuses

unfoldable pub record_consent : ℕ → ℕ → Bool → Limits → ℕ → M ScreenShareSession
record_consent device id accepted limits now = do
  current ← load (is_share_of device id)
  let result = transition current.state (answer_event accepted)
  if not result.applied
      then throw Error.bad_request
      else write_share current (answered accepted result.state limits now)

-- By the phone, with its device, or by an administrator, with the company.
pub data Caller : Type 0 where
  by_device by_company : ℕ → Caller

abbrev pub is_share_for : Caller → ℕ → ScreenShareSession → Bool
is_share_for (by_device device) id = is_share_of device id
is_share_for (by_company company) id = is_share_in company id

unfoldable pub end_share : Caller → ℕ → ScreenShareEvent → ℕ → M ScreenShareSession
end_share caller id event now = do
  current ← load (is_share_for caller id)
  let result = transition current.state event
  if not result.applied
      then (if is_some result.refusal then throw Error.bad_request else pure current)
      else write_share current (closed_as result.state now)

abbrev pub counted : ScreenShareSession → ScreenShareSession
counted s = record s { frame_count = s.frame_count + 1 }

-- `image` stands for the text of the frame, `bytes` for its length.
unfoldable pub relay_frame : ℕ → ℕ → (image bytes : ℕ) → Limits → ℕ → M ℕ
relay_frame device id image bytes limits now = do
  s ← load (is_share_of device id)
  if is_some (accepts_frames s.state s.expires_at now)
      then throw Error.forbidden
      else if ltb limits.max_frame_bytes bytes
      then throw Error.bad_request
      else do
        modify (update_share s.id counted)
        send (Message.screen_share_frame s.requested_by s.id image (s.frame_count + 1))
        pure (s.frame_count + 1)
