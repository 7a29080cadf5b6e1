-- ===== src/Alerts.antt =====
-- apps/api/src/alerts/alerts.service.ts: alerts, one open alert for each deduplication key.
pub mod Dedupe
pub mod Races
pub mod Closing
pub mod Effects
use phone_control.Common.{
  ℕ, ◌≡◌, ◌≤◌, Bool, true, false, ◌&&◌, ◌||◌, List, [], ◌∷◌, ◌++◌, Option, none, some, ◌==◌,
  if◌then◌else◌, find_first, update_where, any, count_where, is_some,
}
use phone_control.Store.Enums.{AlertType, AlertStatus, Severity, is_open}
use phone_control.Store.Keys.{Key, has_key}
use phone_control.Store.{
  Alert, Db, M, Message, Error, ◌>>=◌, ◌>>◌, pure, throw, skip, read, modify, new_id, send,
}

pub record RaiseAlertInput : Type 0 where
  pub company_id : ℕ
  pub type : AlertType
  pub severity : Severity
  pub device_id : Option ℕ
  pub user_id : Option ℕ
  pub depot_id : Option ℕ
  pub session_id : Option ℕ
  pub latitude : Option ℕ
  pub longitude : Option ℕ
  pub dedupe_key : Option Key

-- An open alert of the company with the key.
abbrev pub is_open_with : ℕ → Key → Alert → Bool
is_open_with company key a = a.company_id == company && has_key key a.dedupe_key && is_open a.status

abbrev pub find_open : ℕ → Option Key → List Alert → Option Alert
find_open company none alerts = none
find_open company (some key) alerts = find_first (is_open_with company key) alerts

-- The row that is inserted.
abbrev pub new_alert : RaiseAlertInput → ℕ → Alert
new_alert input id = record {
  id = id;
  company_id = input.company_id;
  device_id = input.device_id;
  user_id = input.user_id;
  depot_id = input.depot_id;
  session_id = input.session_id;
  type = input.type;
  severity = input.severity;
  latitude = input.latitude;
  longitude = input.longitude;
  dedupe_key = input.dedupe_key;
  status = AlertStatus.open_alert;
  acknowledged_at = none;
  acknowledged_by = none;
  resolved_at = none;
  resolved_by = none;
  notified_at = none;
}

abbrev pub insert_alert : Alert → Db → Db
insert_alert a db = record db { alerts = db.alerts ++ a ∷ [] }

-- The branch of the handler where the insertion succeeded.
unfoldable pub created : Alert → M Alert
created a = do
  modify (insert_alert a)
  send (Message.alert_created a)
  send (Message.dispatch_alert a)
  pure a

-- `alert.create` under the index alerts_dedupe_open_uidx, with the handler of its conflict.
-- `after` is what other requests write between the conflict and the second search.
unfoldable pub create_or_existing : (after : Db → Db) → RaiseAlertInput → ℕ → M Alert
unfolding created
create_or_existing after input id = do
  conflict ← read (λ db. find_open input.company_id input.dedupe_key db.alerts)
  elim conflict [
    | none ↦ created (new_alert input id)
    | some _ ↦ do
      modify after
      existing ← read (λ db. find_open input.company_id input.dedupe_key db.alerts)
      elim existing [ some a ↦ pure a | none ↦ throw Error.unique_violation ]
  ]

-- `between` is what other requests write between the first search and the insertion.
unfoldable pub raise_amid : (between after : Db → Db) → RaiseAlertInput → M Alert
unfolding create_or_existing
raise_amid between after input = do
  id ← new_id
  known ← read (λ db. find_open input.company_id input.dedupe_key db.alerts)
  elim known [ some a ↦ pure a | none ↦ do modify between; create_or_existing after input id ]

-- With no other request at work.
unfoldable pub raise : RaiseAlertInput → M Alert
unfolding raise_amid
raise = raise_amid (λ db. db) (λ db. db)

-- `prisma.db` first looks for the row in the company of the request, if there is one
-- (apps/api/src/prisma/tenant-extension.ts), and then writes by the identifier alone.
abbrev pub is_owned : Option ℕ → ℕ → Alert → Bool
is_owned none id a = a.id == id
is_owned (some company) id a = a.id == id && a.company_id == company

update_alert : Option ℕ → ℕ → (Alert → Alert) → M Alert
update_alert tenant id change = do
  found ← read (λ db. find_first (is_owned tenant id) db.alerts)
  elim found [
    | none ↦ throw (if is_some tenant then Error.tenant_isolation else Error.record_not_found)
    | some a ↦ do
      modify (λ db. record db { alerts = update_where (λ x. x.id == id) change db.alerts })
      send (Message.alert_updated (change a))
      pure (change a)
  ]

abbrev pub acknowledged_by_admin : ℕ → ℕ → Alert → Alert
acknowledged_by_admin admin now a = record a {
  status = AlertStatus.acknowledged;
  acknowledged_at = some now;
  acknowledged_by = some admin;
}

abbrev pub resolved_by_admin : ℕ → ℕ → Alert → Alert
resolved_by_admin admin now a = record a {
  status = AlertStatus.resolved;
  resolved_at = some now;
  resolved_by = some admin;
}

unfoldable pub acknowledge : Option ℕ → ℕ → ℕ → ℕ → M Alert
unfolding update_alert
acknowledge tenant alert_id admin_id now =
    update_alert tenant alert_id (acknowledged_by_admin admin_id now)

unfoldable pub resolve : Option ℕ → ℕ → ℕ → ℕ → M Alert
unfolding update_alert
resolve tenant alert_id admin_id now = update_alert tenant alert_id (resolved_by_admin admin_id now)

-- How many alerts of the company with the key are open.
abbrev pub open_count : ℕ → Key → List Alert → ℕ
open_count company key = count_where (is_open_with company key)

-- What the database guarantees by its index alerts_dedupe_open_uidx.
abbrev pub IsDeduped : Db → Type 0
IsDeduped db = (company : ℕ) (key : Key) → open_count company key db.alerts ≤ 1
