-- ===== src/Notifications/Service.antt =====
-- apps/api/src/notifications/notifications.service.ts: the delivery of an alert. The settings of a
-- company, as they are parsed, and the channels are parameters; the text of a message is left out.
pub mod Ceiling
use phone_control.Common.{
  ℕ, zero, suc, ◌+◌, ◌-◌, ◌≡◌, Bool, true, false, ◌&&◌, List, [], ◌∷◌, Option, none, some, ltb, leb,
  ◌==◌, if◌then◌else◌, any, length, update_where, count_where,
}
use phone_control.Store.{
  Alert, Db, M, Reply, done, raised, Error, ◌>>=◌, ◌>>◌, pure, throw, read, modify,
}
use phone_control.Rules.Schedule.{Calendar}
use phone_control.Notifications.Routing.{NotificationConfig, RoutableAlert, Target, route_alert}

-- `notifiedAt: { gte: now - 3_600_000 }` of the company; a null does not compare.
abbrev pub is_recent : ℕ → ℕ → Alert → Bool
is_recent company now a = elim a.notified_at [
  | none ↦ false
  | some at ↦ a.company_id == company && leb now (at + 3600000)
]

abbrev pub sent_in_last_hour : ℕ → ℕ → Db → ℕ
sent_in_last_hour company now db = count_where (is_recent company now) db.alerts

abbrev pub notified : ℕ → Alert → Alert
notified now a = record a { notified_at = some now }

-- `alert.update` with the time of the notification.
mark_notified : Alert → ℕ → M (Unit {0})
mark_notified a now = do
  known ← read (λ db. any (λ x. x.id == a.id) db.alerts)
  if known
      then modify
          (λ db. record db { alerts = update_where (λ x. x.id == a.id) (notified now) db.alerts })
      else throw Error.record_not_found

-- It never throws: a failure is logged, and nobody was told.
abbrev pub caught : Reply ℕ × Db → Reply ℕ × Db
caught (done n, db) = (done n, db)
caught (raised e, db) = (done 0, db)

abbrev pub routable : Alert → RoutableAlert
routable a = record { type = a.type; severity = a.severity }

-- `ready` and `accepts` say whether the channel of a target is configured and takes the message.
module _ (c : Calendar) (config_for : ℕ → Option NotificationConfig)
    (ready accepts : Target → Bool) where
  unfoldable pub deliver : Alert → ℕ → M ℕ
  unfolding mark_notified
  deliver a now = do
    sent ← read (sent_in_last_hour a.company_id now)
    let decision = route_alert c (routable a) (config_for a.company_id) now sent
    let delivered = count_where (λ t. ready t && accepts t) decision.targets
    if ltb 0 delivered then (do mark_notified a now; pure delivered) else pure 0

  unfoldable pub dispatch : Alert → ℕ → M ℕ
  unfolding deliver
  dispatch a now db = caught (deliver a now db)
