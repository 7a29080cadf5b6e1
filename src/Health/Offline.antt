-- ===== src/Health/Offline.antt =====
-- The alerts of the phones that are silent, at a run of the health monitor for one company.
use phone_control.Common.{
  ℕ, ◌≡◌, ◌∙◌, refl, sym, inl, inr, Bool, true, false, ◌||◌, List, [], ◌∷◌, if◌then◌else◌, some,
  ◌==◌, ==_iff, update_where, Bool-cases, Option-cases, arith, any, keep, All, All-append,
}
use phone_control.Store.Enums.{Severity, SecurityEventType}
use phone_control.Store.Keys.{Key, has_key, same_key, same_key_iff}
use phone_control.Store.{Device, Alert, Db, done}
use phone_control.Alerts.{find_open, is_open_with, raise, open_count, IsDeduped}
use phone_control.Alerts.Dedupe.{raise_known, raise_new, raise_one_open, raise-IsDeduped}
use phone_control.Alerts.Effects.{raise-Spares}
use phone_control.Settings.{DeviceSettings}
use phone_control.Health.{
  add_health_event, auto_closed, offline_limit, is_offline, offline_alert, report_offline,
  is_offline_alert, has_recovered, is_recovered, close_recovered_alerts, check_company_health,
}
use phone_control.Health.Runs.{dropping-raise}
use phone_control.Health.Location.{raise_elsewhere, closed_shut}

-- An alert with the key of a silent phone is of that type, and names the phone.
abbrev pub Names : ℕ → Alert → Type 0
Names id a =
    has_key (Key.device_offline id) a.dedupe_key ≡ true
    → (a.device_id ≡ some id) × (is_offline_alert a.type ≡ true)

one_or :
    (later here : Bool) (n : ℕ)
    → (if later then 1 else (if here then 1 else n)) ≡ (if here || later then 1 else n)
one_or true true n = refl
one_or true false n = refl
one_or false true n = refl
one_or false false n = refl

module _ (company now : ℕ) where
  -- What one silent phone changes.
  abbrev one_offline : Device → Db → Db
  one_offline d db =
      (add_health_event company d.id SecurityEventType.device_offline Severity.medium now
        (raise (offline_alert company d) db).1).1

  abbrev all_offline : List Device → Db → Db
  all_offline [] db = db
  all_offline (d ∷ ds) db = all_offline ds (one_offline d db)

  report_offline_run :
      (ds : List Device) (db : Db) → report_offline company now ds db ≡ (done tt, all_offline ds db)
  unfolding report_offline add_health_event
  report_offline_run [] db = refl
  report_offline_run (d ∷ ds) db =
      rw (report_offline, dropping-raise (offline_alert company d) db)
        (report_offline_run ds (one_offline d db))

  module _ (id : ℕ) where
    abbrev key : Key
    key = Key.device_offline id

    other_key : (d : Device) → (d.id == id) ≡ false → same_key (Key.device_offline d.id) key ≡ false
    other_key d e = elim (Bool-cases (same_key (Key.device_offline d.id) key)) [
      | inr miss ↦ miss
      | inl hit ↦
          let same : Key.device_offline d.id ≡ key =
            (same_key_iff (Key.device_offline d.id) key).0 hit in
          let ids : d.id ≡ id = cc same in absurd (cc (e, (==_iff d.id id).1 ids))
    ]

    named_if_same :
        (d : Device) → same_key (Key.device_offline d.id) key ≡ true → some d.id ≡ some id
    named_if_same d hit =
        let same : Key.device_offline d.id ≡ key =
          (same_key_iff (Key.device_offline d.id) key).0 hit in
        cc same

    abbrev Kept : List Device → Db → Db → Type 0
    Kept ds db db' =
        (open_count company key db'.alerts
          ≡ (if any (λ d. d.id == id) ds then 1 else open_count company key db.alerts))
        × IsDeduped db'
        × All (Names id) db'.alerts
        × (db'.devices ≡ db.devices)

    raise-Names :
        (d : Device) (db : Db)
        → All (Names id) db.alerts
        → All (Names id) (raise (offline_alert company d) db).1.alerts
    raise-Names d db h =
        elim (Option-cases (find_open company (some (Key.device_offline d.id)) db.alerts)) [
          | inl missing ↦
              rw (raise_new (offline_alert company d) db missing)
                (All-append (Names id) db.alerts _ h ((λ hit. (named_if_same d hit, refl)), tt))
          | inr (a, found) ↦ rw (raise_known (offline_alert company d) db a found) h
        ]

    one_offline-open :
        (d : Device) (db : Db)
        → IsDeduped db
        → open_count company key (raise (offline_alert company d) db).1.alerts
          ≡ (if d.id == id then 1 else open_count company key db.alerts)
    one_offline-open d db h = elim (Bool-cases (d.id == id)) [
      | inl e ↦
          let same : id ≡ d.id = sym ((==_iff d.id id).0 e) in
          let (a, ran, shown, one) =
            raise_one_open (offline_alert company d) (Key.device_offline d.id) db h refl in
          rw e (rw same one)
      | inr e ↦ rw e (raise_elsewhere (offline_alert company d) company key db (other_key d e))
    ]

    all_offline-Kept :
        (ds : List Device) (db : Db)
        → IsDeduped db
        → All (Names id) db.alerts
        → Kept ds db (all_offline ds db)
    unfolding add_health_event
    all_offline-Kept [] db h n = (refl, h, n, refl)
    all_offline-Kept (d ∷ ds) db h n =
        let input = offline_alert company d in
        let (count, deduped, named, devices) =
          all_offline-Kept ds (one_offline d db) (raise-IsDeduped input db h)
            (raise-Names d db n) in
        (
          count ∙ rw (one_offline-open d db h) (one_or (any (λ d. d.id == id) ds) (d.id == id) _),
          deduped,
          named,
          devices ∙ (raise-Spares input db).1.2,
        )

    -- No device of the table with this identifier is back.
    closed_others :
        (limit : ℕ) (devices : List Device) (alerts : List Alert)
        → has_recovered limit devices (some id) ≡ false
        → All (Names id) alerts
        → open_count company key
            (update_where (is_recovered company limit devices) (auto_closed now) alerts)
          ≡ open_count company key alerts
    closed_others limit devices [] away n = refl
    closed_others limit devices (a ∷ rest) away n =
        elim (Bool-cases (is_recovered company limit devices a)) [
          | inr e ↦ rw e (omega (arith, closed_others limit devices rest away n.1))
          | inl e ↦
              let other : is_open_with company key a ≡ false =
                elim (Bool-cases (is_open_with company key a)) [
                  | inr miss ↦ miss
                  | inl hit ↦
                      let theirs : has_key key a.dedupe_key ≡ true = ground arith in
                      let back : has_recovered limit devices a.device_id ≡ true = ground arith in
                      absurd (cc (away, rw (n.0 theirs).0 at back))
                ] in
              rw (e, closed_shut company key now a, other)
                (omega (arith, closed_others limit devices rest away n.1))
        ]

    -- A device of the table with this identifier is back.
    closed_all :
        (limit : ℕ) (devices : List Device) (alerts : List Alert)
        → has_recovered limit devices (some id) ≡ true
        → All (Names id) alerts
        → open_count company key
            (update_where (is_recovered company limit devices) (auto_closed now) alerts)
          ≡ 0
    closed_all limit devices [] back n = refl
    closed_all limit devices (a ∷ rest) back n =
        elim (Bool-cases (is_recovered company limit devices a)) [
          | inl e ↦
              rw (e, closed_shut company key now a)
                (omega (arith, closed_all limit devices rest back n.1))
          | inr e ↦ elim (Bool-cases (is_open_with company key a)) [
            | inr miss ↦ rw (e, miss) (omega (arith, closed_all limit devices rest back n.1))
            | inl hit ↦
                let (named, type) = n.0 (ground arith) in
                let theirs : has_recovered limit devices a.device_id ≡ true = rw named back in
                let yes : is_recovered company limit devices a ≡ true =
                  ground (arith, type, theirs) in
                absurd (cc (e, yes))
          ]
        ]

-- After a run for a company, no alert on a phone that is back is open, exactly one on a phone that is
-- silent, and for another phone as many as before. The table has one open alert for each key, and the
-- alerts with the key of the phone are offline alerts that name it, as the job writes them.
pub check_company_health_open :
    (table : List DeviceSettings) (company now id : ℕ) (db : Db)
    → IsDeduped db
    → All (Names id) db.alerts
    → let limit = offline_limit table company now in
      let (answer, after) = check_company_health table company now db in
      (answer ≡ done tt)
      × (open_count company (Key.device_offline id) after.alerts ≡ (
          if has_recovered limit db.devices (some id)
          then 0
          else if any (λ d. d.id == id) (keep (is_offline company limit) db.devices)
          then 1
          else open_count company (Key.device_offline id) db.alerts))
unfolding check_company_health close_recovered_alerts
check_company_health_open table company now id db h n =
    let limit = offline_limit table company now in
    let silent = keep (is_offline company limit) db.devices in
    let (count, deduped, named, same) = all_offline-Kept company now id silent db h n in
    rw (check_company_health, report_offline_run company now silent db, close_recovered_alerts)
      (elim (Bool-cases (has_recovered limit db.devices (some id))) [
        | inl back ↦
            (refl, rw (same, back) (closed_all company now id limit db.devices _ back named))
        | inr away ↦ (
          refl,
          rw (same, away) (closed_others company now id limit db.devices _ away named ∙ count),
        )
      ])
