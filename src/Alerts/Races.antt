-- ===== src/Alerts/Races.antt =====
-- Two requests that raise the same alert at once: what the others write between the search and the
-- insertion, and between the conflict and the second search, is any change of the database.
use phone_control.Common.{
  ℕ, suc, ◌≡◌, ◌<◌, ◌⊎◌, ◌∙◌, Option, none, true, refl, sym, ap, arith, find_first-satisfies, some,
  Option-cases, inl, inr, find_first, find_first-none, find_first-some,
}
use phone_control.Store.Enums.{is_open}
use phone_control.Store.Keys.{Key, has_key, same_key_iff}
use phone_control.Store.{Alert, Db, Reply, done, raised, Error}
use phone_control.Alerts.{
  RaiseAlertInput, new_alert, is_open_with, find_open, create_or_existing, raise_amid, open_count,
  IsDeduped,
}
use phone_control.Alerts.Dedupe.{open_count-insert}

create_or_existing-IsDeduped :
    (after : Db → Db) (input : RaiseAlertInput) (id : ℕ) (db : Db)
    → ((d : Db) → IsDeduped d → IsDeduped (after d))
    → IsDeduped db
    → IsDeduped (create_or_existing after input id db).1
unfolding create_or_existing
create_or_existing-IsDeduped after input id db keeps h company key =
    elim (Option-cases (find_open input.company_id input.dedupe_key db.alerts)) [
      | inl free ↦
          rw (free, create_or_existing)
            (open_count-insert input id db.alerts company key free (h company key))
      | inr (a, conflict) ↦
          rw (conflict, create_or_existing)
            (elim (Option-cases (find_open input.company_id input.dedupe_key (after db).alerts)) [
              | inl gone ↦ rw (gone, create_or_existing) (keeps db h company key)
              | inr (b, found) ↦ rw (found, create_or_existing) (keeps db h company key)
            ])
    ]

-- The alert is open, of the company and with the key, if any, of the call.
abbrev pub IsOpenFor : RaiseAlertInput → Alert → Type 0
IsOpenFor input a =
    (a.company_id ≡ input.company_id)
    × (is_open a.status ≡ true)
    × (a.dedupe_key ≡ input.dedupe_key)

-- What a call comes to, by the alert that it finds at its start: that alert, with nothing written and
-- no other request waited for; or, where it finds none, an alert that is open for it, or an error.
abbrev pub Reuses : Option Alert → RaiseAlertInput → Db → Reply Alert × Db → Type 0
Reuses (some a) input db result = result ≡ (done a, record db { issued = suc db.issued })
Reuses none input db result =
    ((a : Alert) × (result.0 ≡ done a) × IsOpenFor input a) ⊎ ((e : Error) × (result.0 ≡ raised e))

open_with-IsOpenFor :
    (input : RaiseAlertInput) (key : Key) (a : Alert)
    → input.dedupe_key ≡ some key
    → is_open_with input.company_id key a ≡ true
    → IsOpenFor input a
open_with-IsOpenFor input key a keyed h =
    let own : has_key key a.dedupe_key ≡ true = ground (arith, h) in
    (
      ground (arith, h),
      ground (arith, h),
      elim (Option-cases a.dedupe_key) [
        | inl bare ↦ absurd (cc (rw bare at own))
        | inr (j, e) ↦ e ∙ ap some ((same_key_iff j key).0 (rw e at own)) ∙ sym keyed
      ],
    )

create_or_existing-opens :
    (after : Db → Db) (input : RaiseAlertInput) (id : ℕ) (db : Db)
    → let result = create_or_existing after input id db in
      ((a : Alert) × (result.0 ≡ done a) × IsOpenFor input a)
      ⊎ ((e : Error) × (result.0 ≡ raised e))
unfolding create_or_existing
create_or_existing-opens after input id db = elim (Option-cases input.dedupe_key) [
  | inl bare ↦ rw (bare, create_or_existing) (inl (new_alert input id, refl, (refl, refl, bare)))
  | inr (key, keyed) ↦
      let p = is_open_with input.company_id key in
      elim (Option-cases (find_first p db.alerts)) [
        | inl free ↦
            rw (keyed, free, create_or_existing)
              (inl (new_alert input id, refl, (refl, refl, keyed)))
        | inr (a, conflict) ↦ elim (Option-cases (find_first p (after db).alerts)) [
          | inl gone ↦ rw (keyed, conflict, keyed, gone, create_or_existing) (inr (_, refl))
          | inr (b, found) ↦
              let held =
                open_with-IsOpenFor input key b keyed
                  (find_first-satisfies p (after db).alerts b found) in
              rw (keyed, conflict, keyed, found, create_or_existing)
                (inl (b, refl, (held.0, held.1, held.2 ∙ keyed)))
        ]
      ]
]

-- Whatever the other requests do, as long as they too leave no two alerts open for one key, a call
-- leaves no two alerts open for one key. If an alert of its key is open at the start, the call answers
-- with that alert, and neither it nor another request meanwhile writes anything; otherwise it answers
-- with an alert that is open for its company and key, or fails.
pub raise_amid-IsDeduped :
    (between after : Db → Db) (input : RaiseAlertInput) (db : Db)
    → ((d : Db) → IsDeduped d → IsDeduped (between d))
    → ((d : Db) → IsDeduped d → IsDeduped (after d))
    → IsDeduped db
    → IsDeduped (raise_amid between after input db).1
      × Reuses
          (find_open input.company_id input.dedupe_key db.alerts)
          input
          db
          (raise_amid between after input db)
unfolding raise_amid
raise_amid-IsDeduped between after input db keeps keeps' h =
    let db' = record db { issued = suc db.issued } in
    elim (Option-cases (find_open input.company_id input.dedupe_key db.alerts)) [
      | inl missing ↦
          rw (missing, raise_amid)
            (
              create_or_existing-IsDeduped after input (db.ids db.issued) (between db') keeps'
                  (keeps db' h),
              create_or_existing-opens after input (db.ids db.issued) (between db'),
            )
      | inr (a, found) ↦ rw (found, raise_amid) (h, refl)
    ]

create_or_existing_fails :
    (after : Db → Db) (input : RaiseAlertInput) (id : ℕ) (db : Db) (e : Error)
    → (create_or_existing after input id db).0 ≡ raised e
    → (key : Key) × (input.dedupe_key ≡ some key)
      × (0 < open_count input.company_id key db.alerts)
      × (open_count input.company_id key (after db).alerts ≡ 0)
unfolding create_or_existing
create_or_existing_fails after input id db e h = elim (Option-cases input.dedupe_key) [
  | inl no_key ↦ absurd (cc (rw (no_key, create_or_existing) at h))
  | inr (key, keyed) ↦
      let p = is_open_with input.company_id key in
      elim (Option-cases (find_first p db.alerts)) [
        | inl free ↦ absurd (cc (rw (keyed, free, create_or_existing) at h))
        | inr (a, conflict) ↦ elim (Option-cases (find_first p (after db).alerts)) [
          | inl gone ↦ (
            key,
            keyed,
            find_first-some p db.alerts a conflict,
            find_first-none p (after db).alerts gone,
          )
          | inr (b, found) ↦
              absurd (cc (rw (keyed, conflict, keyed, found, create_or_existing) at h))
        ]
      ]
]

-- A call fails only when its insertion met an open alert of its key, which the other requests had
-- closed again when the second search was made.
pub raise_amid_fails :
    (between after : Db → Db) (input : RaiseAlertInput) (db : Db) (e : Error)
    → (raise_amid between after input db).0 ≡ raised e
    → let db' = between (record db { issued = suc db.issued }) in
      (key : Key) × (input.dedupe_key ≡ some key)
      × (0 < open_count input.company_id key db'.alerts)
      × (open_count input.company_id key (after db').alerts ≡ 0)
unfolding raise_amid
raise_amid_fails between after input db e h =
    let db' = between (record db { issued = suc db.issued }) in
    elim (Option-cases (find_open input.company_id input.dedupe_key db.alerts)) [
      | inl missing ↦
          create_or_existing_fails after input (db.ids db.issued) db' e
            (rw (missing, raise_amid) at h)
      | inr (a, found) ↦ absurd (cc (rw (found, raise_amid) at h))
    ]
