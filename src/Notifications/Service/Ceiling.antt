-- ===== src/Notifications/Service/Ceiling.antt =====
-- The ceiling on the notifications of an hour.
use phone_control.Common.{
  ℕ, suc, ◌≡◌, ◌≢◌, ◌⊎◌, ◌≤◌, ◌∙◌, ap, refl, Bool, true, false, ◌&&◌, List, [], ◌∷◌, Option, some,
  arith, get_or, Bool-cases, inl, inr, ◌==◌, ==_iff, count_where, update_where, ltb, leb, any, All,
}
use phone_control.Common.Ids.{DistinctIds, update_where-none}
use phone_control.Store.{Alert, Db}
use phone_control.Rules.Schedule.{Calendar}
use phone_control.Notifications.Routing.{
  NotificationConfig, Target, is_critical, default_max_per_hour, route_alert,
}
use phone_control.Notifications.Routing.Decisions.{route_alert-targets, is_held}
use phone_control.Notifications.Service.{routable, is_recent, sent_in_last_hour, notified, dispatch}

notified_eq :
    (p : Alert → Bool) (id now : ℕ) (alerts : List Alert)
    → All (λ a. (a.id == id) ≡ false) alerts
    → update_where (λ x. x.id == id) (notified now) alerts ≡ alerts
notified_eq p id now alerts h = update_where-none (λ x. x.id == id) (notified now) alerts h

-- One alert that is marked is one more at most.
count-notified :
    (p : Alert → Bool) (id now : ℕ) (alerts : List Alert)
    → DistinctIds (λ a. a.id) alerts
    → count_where p (update_where (λ x. x.id == id) (notified now) alerts)
      ≤ suc (count_where p alerts)
count-notified p id now [] ids = omega arith
count-notified p id now (a ∷ alerts) ids = elim (Bool-cases (a.id == id)) [
  | inl here ↦
      let same : a.id ≡ id = (==_iff a.id id).0 here in
      let others : All (λ y. (y.id == id) ≡ false) alerts = rw same at ids.0 in
      rw (here, update_where-none (λ x. x.id == id) (notified now) alerts others) (ground arith)
  | inr other ↦ rw other (ground (arith, count-notified p id now alerts ids.1))
]

-- At the ceiling nothing that is not critical goes out.
held_targets :
    (c : Calendar) (a : Alert) (config : NotificationConfig) (now sent : ℕ)
    → is_critical a.severity ≡ false
    → leb (get_or config.max_per_hour default_max_per_hour) sent ≡ true
    → (route_alert c (routable a) (some config) now sent).targets ≡ []
held_targets c a config now sent mild many =
    let held : is_held c (routable a) config now sent ≡ true = ground (arith, mild, many) in
    route_alert-targets c (routable a) config now sent ∙ rw held refl

module _ (c : Calendar) (config_for : ℕ → Option NotificationConfig)
    (ready accepts : Target → Bool) where
  abbrev targets_for : Alert → ℕ → Db → List Target
  targets_for a now db =
      (route_alert c (routable a) (config_for a.company_id) now
        (sent_in_last_hour a.company_id now db)).targets

  -- What a delivery writes: nothing, or the time on the alert.
  dispatch_cases :
      (a : Alert) (now : ℕ) (db : Db)
      → ((dispatch c config_for ready accepts a now db).1.alerts ≡ db.alerts)
        ⊎ (((dispatch c config_for ready accepts a now db).1.alerts
              ≡ update_where (λ x. x.id == a.id) (notified now) db.alerts)
            × (targets_for a now db ≢ []))
  unfolding dispatch
  dispatch_cases a now db =
      elim (Bool-cases (ltb 0 (count_where (λ t. ready t && accepts t) (targets_for a now db)))) [
        | inr nobody ↦ inl (rw (dispatch, nobody) refl)
        | inl somebody ↦ elim (Bool-cases (any (λ x. x.id == a.id) db.alerts)) [
          | inr unknown ↦ inl (rw (dispatch, somebody, unknown) refl)
          | inl known ↦ inr (rw (dispatch, somebody, known) refl, λ e. cc (rw e at somebody))
        ]
      ]

  -- While an alert that is not critical is dispatched, the notifications of its company within the
  -- hour never pass the ceiling that the company has set.
  pub dispatch_ceiling :
      (a : Alert) (config : NotificationConfig) (now : ℕ) (db : Db)
      → config_for a.company_id ≡ some config
      → is_critical a.severity ≡ false
      → DistinctIds (λ x. x.id) db.alerts
      → sent_in_last_hour a.company_id now db ≤ get_or config.max_per_hour default_max_per_hour
      → sent_in_last_hour a.company_id now (dispatch c config_for ready accepts a now db).1
        ≤ get_or config.max_per_hour default_max_per_hour
  dispatch_ceiling a config now db has_config mild ids h = elim (dispatch_cases a now db) [
    | inl same ↦ rw same h
    | inr (marked, some_target) ↦
        elim (Bool-cases (
          leb (get_or config.max_per_hour default_max_per_hour)
            (sent_in_last_hour a.company_id now db))) [
              | inl many ↦
                  let sent = sent_in_last_hour a.company_id now db in
                  absurd (
                    some_target (
                      ap (λ o. (route_alert c (routable a) o now sent).targets) has_config
                      ∙ held_targets c a config now sent mild many))
              | inr few ↦
                  let more = count-notified (is_recent a.company_id now) a.id now db.alerts ids in
                  rw marked (ground (arith, more, few))
            ]
  ]
