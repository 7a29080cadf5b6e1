-- ===== src/Alerts/Dedupe.antt =====
-- One open alert for each key, with no other request at work.
use phone_control.Common.{
  ℕ, suc, ◌+◌, ◌≡◌, ◌≤◌, true, List, [], ◌∷◌, ◌++◌, none, some, arith, ◌==◌, count_where-append,
  find_first, find_first-none, find_first-satisfies, find_first-some, if◌then◌else◌, ◌&&◌, ap,
  Option-cases, Bool-cases, inl, inr,
}
use phone_control.Store.Keys.{Key, same_key_iff, same_key_refl, has_key}
use phone_control.Store.{Alert, Db, Message, done}
use phone_control.Alerts.{
  RaiseAlertInput, is_open_with, find_open, new_alert, create_or_existing, raise, open_count,
  IsDeduped,
}

module _ (input : RaiseAlertInput) (id : ℕ) (alerts : List Alert) where
  -- The new row counts for its own key only.
  pub open_count-new_alert :
      (company : ℕ) (key : Key)
      → open_count company key (alerts ++ new_alert input id ∷ [])
        ≡ open_count company key alerts
          + (if input.company_id == company && has_key key input.dedupe_key then 1 else 0)
  open_count-new_alert company key =
      rw (count_where-append (is_open_with company key) alerts (new_alert input id ∷ []))
        (ground arith)

  same_key_of_has_key :
      (key : Key) → has_key key input.dedupe_key ≡ true → input.dedupe_key ≡ some key
  same_key_of_has_key key h = elim (Option-cases input.dedupe_key) [
    | inl e ↦ cc (rw e at h)
    | inr (j, e) ↦ rw e (ap some ((same_key_iff j key).0 (rw e at h)))
  ]

  pub open_count-insert :
      (company : ℕ) (key : Key)
      → find_open input.company_id input.dedupe_key alerts ≡ none
      → open_count company key alerts ≤ 1
      → open_count company key (alerts ++ new_alert input id ∷ []) ≤ 1
  open_count-insert company key e h =
      elim (Bool-cases (input.company_id == company && has_key key input.dedupe_key)) [
        | inl same ↦
            let c : input.company_id ≡ company = ground arith in
            let d = same_key_of_has_key key (ground arith) in
            let zero = find_first-none (is_open_with company key) alerts (rw (d, c) at e) in
            rw (open_count-new_alert company key, same) (omega (arith, zero))
        | inr other ↦ rw (open_count-new_alert company key, other) (omega arith)
      ]

-- What a call does when its key is open, and when it is not.
pub raise_known :
    (input : RaiseAlertInput) (db : Db) (a : Alert)
    → find_open input.company_id input.dedupe_key db.alerts ≡ some a
    → raise input db ≡ (done a, record db { issued = suc db.issued })
unfolding raise
raise_known input db a e = rw (e, raise)

abbrev pub with_new_alert : RaiseAlertInput → Db → Db
with_new_alert input db =
    let a = new_alert input (db.ids db.issued) in
    record db {
      issued = suc db.issued;
      alerts = db.alerts ++ a ∷ [];
      outbox = (db.outbox ++ Message.alert_created a ∷ []) ++ Message.dispatch_alert a ∷ [];
    }

pub raise_new :
    (input : RaiseAlertInput) (db : Db)
    → find_open input.company_id input.dedupe_key db.alerts ≡ none
    → raise input db ≡ (done (new_alert input (db.ids db.issued)), with_new_alert input db)
unfolding raise
raise_new input db e = rw (e, raise) (rw (e, create_or_existing))

-- A call with a key answers with an open alert of that key, and afterwards exactly one is open.
pub raise_one_open :
    (input : RaiseAlertInput) (key : Key) (db : Db)
    → IsDeduped db
    → input.dedupe_key ≡ some key
    → (a : Alert) × ((raise input db).0 ≡ done a)
      × (is_open_with input.company_id key a ≡ true)
      × (open_count input.company_id key (raise input db).1.alerts ≡ 1)
raise_one_open input key db h e =
    let p = is_open_with input.company_id key in
    elim (Option-cases (find_first p db.alerts)) [
      | inl missing ↦
          let run = raise_new input db (rw e missing) in
          let zero = find_first-none p db.alerts missing in
          (
            new_alert input (db.ids db.issued),
            ap (λ r. r.0) run,
            rw e (ground (arith, same_key_refl key)),
            rw
                (
                  run,
                  open_count-new_alert input (db.ids db.issued) db.alerts input.company_id key,
                  e,
                )
                (ground (arith, same_key_refl key, zero)),
          )
      | inr (a, found) ↦
          let run = raise_known input db a (rw e found) in
          (
            a,
            ap (λ r. r.0) run,
            find_first-satisfies p db.alerts a found,
            rw run (omega (arith, h input.company_id key, find_first-some p db.alerts a found)),
          )
    ]

-- No call, with a key or without, leaves two alerts open for one key.
pub raise-IsDeduped :
    (input : RaiseAlertInput) (db : Db) → IsDeduped db → IsDeduped (raise input db).1
raise-IsDeduped input db h company key =
    elim (Option-cases (find_open input.company_id input.dedupe_key db.alerts)) [
      | inl missing ↦
          rw (raise_new input db missing) (
            open_count-insert input (db.ids db.issued) db.alerts company key missing
              (h company key))
      | inr (a, found) ↦ rw (raise_known input db a found) (h company key)
    ]
