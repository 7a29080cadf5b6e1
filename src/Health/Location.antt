-- ===== src/Health/Location.antt =====
-- The alert of a phone whose location is switched off.
use phone_control.Common.{
  ℕ, ◌≡◌, ◌≢◌, ◌∙◌, refl, sym, ap, inl, inr, Bool, true, false, List, [], ◌∷◌, Option, none, some,
  find_first, ◌==◌, update_where, Bool-cases, Option-cases, arith,
}
use phone_control.Store.Keys.{Key, has_key, same_key, same_key_iff}
use phone_control.Store.{Device, Alert, Db}
use phone_control.Alerts.{RaiseAlertInput, find_open, is_open_with, raise, open_count, IsDeduped}
use phone_control.Alerts.Dedupe.{
  raise_known, raise_new, raise_one_open, open_count-new_alert, raise-IsDeduped,
}
use phone_control.Settings.{DeviceSettings}
use phone_control.Health.{
  Heartbeat, seen, add_health_event, auto_closed, close_key, store_seen, is_true, is_false,
  heartbeat,
}
use phone_control.Health.Runs.{
  if_so, raise_battery, raise_location, location_alert, is_low, is_charged, checked, heartbeat_run,
}

-- An alert of another key.
pub raise_elsewhere :
    (input : RaiseAlertInput) (company : ℕ) (key : Key) (db : Db)
    → has_key key input.dedupe_key ≡ false
    → open_count company key (raise input db).1.alerts ≡ open_count company key db.alerts
raise_elsewhere input company key db other =
    elim (Option-cases (find_open input.company_id input.dedupe_key db.alerts)) [
      | inl missing ↦
          rw
            (
              raise_new input db missing,
              open_count-new_alert input (db.ids db.issued) db.alerts company key,
              other,
            )
            (ground arith)
      | inr (a, found) ↦ rw (raise_known input db a found) refl
    ]

pub closed_shut :
    (company : ℕ) (key : Key) (now : ℕ) (a : Alert)
    → is_open_with company key (auto_closed now a) ≡ false
closed_shut company key now a = ground arith

-- An open alert with one key is none with another.
one_key :
    (company : ℕ) (key other : Key) (a : Alert)
    → key ≢ other
    → is_open_with company other a ≡ true
    → is_open_with company key a ≡ false
one_key company key other a apart e =
    let theirs : has_key other a.dedupe_key ≡ true = ground arith in
    let not_ours : has_key key a.dedupe_key ≡ false = elim (Option-cases a.dedupe_key) [
      | inl none' ↦ absurd (cc (rw none' at theirs))
      | inr (j, have) ↦ elim (Bool-cases (same_key j key)) [
        | inr miss ↦ rw have miss
        | inl hit ↦ absurd (
            apart (sym ((same_key_iff j key).0 hit) ∙ (same_key_iff j other).0 (rw have at theirs)))
      ]
    ] in
    ground (arith, not_ours)

close_none :
    (company : ℕ) (key : Key) (now : ℕ) (alerts : List Alert)
    → open_count company key (update_where (is_open_with company key) (auto_closed now) alerts) ≡ 0
close_none company key now [] = refl
close_none company key now (a ∷ rest) = elim (Bool-cases (is_open_with company key a)) [
  | inl e ↦ rw (e, closed_shut company key now a) (omega (arith, close_none company key now rest))
  | inr e ↦ rw (e, e) (omega (arith, close_none company key now rest))
]

close_elsewhere :
    (company : ℕ) (key other : Key) (now : ℕ) (alerts : List Alert)
    → key ≢ other
    → open_count company key (update_where (is_open_with company other) (auto_closed now) alerts)
      ≡ open_count company key alerts
close_elsewhere company key other now [] apart = refl
close_elsewhere company key other now (a ∷ rest) apart =
    elim (Bool-cases (is_open_with company other a)) [
      | inl e ↦
          rw (e, closed_shut company key now a, one_key company key other a apart e)
            (omega (arith, close_elsewhere company key other now rest apart))
      | inr e ↦ rw e (omega (arith, close_elsewhere company key other now rest apart))
    ]

module _ (table : List DeviceSettings) (d : Device) (dto : Heartbeat) (now : ℕ) (db : Db) where
  abbrev key : Key
  key = Key.location_disabled d.id

  abbrev open_after : Db → ℕ
  open_after db = open_count d.company_id key db.alerts

  apart : key ≢ Key.battery_low d.id
  apart e = cc e

  battery_first :
      (b : Bool) → open_after (if_so b (raise_battery table d dto now) db) ≡ open_after db
  battery_first false = refl
  battery_first true =
      raise_elsewhere _ d.company_id key db
        (elim (Bool-cases (same_key (Key.battery_low d.id) key)) [
          | inr miss ↦ miss
          | inl hit ↦ absurd (apart (sym ((same_key_iff (Key.battery_low d.id) key).0 hit)))
        ])

  battery_last :
      (b : Bool) (db : Db)
      → open_after (if_so b (close_key d.company_id (Key.battery_low d.id) now) db) ≡ open_after db
  battery_last false db = refl
  battery_last true db = close_elsewhere d.company_id key (Key.battery_low d.id) now db.alerts apart

  battery_first-IsDeduped :
      (b : Bool) → IsDeduped db → IsDeduped (if_so b (raise_battery table d dto now) db)
  battery_first-IsDeduped false h = h
  battery_first-IsDeduped true h = raise-IsDeduped _ db h

-- How many alerts are open after a report on the location, where `n` were before.
abbrev pub open_given : Option Bool → (n : ℕ) → ℕ
open_given none n = n
open_given (some false) n = 1
open_given (some true) n = 0

module _ (table : List DeviceSettings) (d : Device) (dto : Heartbeat) (now : ℕ) where
  location_steps :
      (gps : Option Bool) (db : Db)
      → IsDeduped db
      → open_after table d dto now db (
          if_so
            (is_true gps)
            (close_key d.company_id (Key.location_disabled d.id) now)
            (if_so (is_false gps) (raise_location table d dto now) db))
        ≡ open_given gps (open_after table d dto now db db)
  unfolding add_health_event
  location_steps none db h = refl
  location_steps (some false) db h =
      let (a, ran, shown, one) =
        raise_one_open (location_alert table d dto now) (Key.location_disabled d.id) db h refl in
      one
  location_steps (some true) db h =
      close_none d.company_id (Key.location_disabled d.id) now db.alerts

  checked_location :
      (db : Db)
      → IsDeduped db
      → open_after table d dto now db (checked table d dto now db)
        ≡ open_given dto.gps (open_after table d dto now db db)
  checked_location db h =
      let first = if_so (is_low table d dto now) (raise_battery table d dto now) db in
      battery_last table d dto now db (is_charged table d dto now) _
      ∙ location_steps dto.gps first
          (battery_first-IsDeduped table d dto now db (is_low table d dto now) h)
      ∙ ap (open_given dto.gps) (battery_first table d dto now db (is_low table d dto now))

-- After a heartbeat that says that the location is off, exactly one alert of that is open for the
-- phone; after one that says that it is on, none is; otherwise their number is what it was.
-- The battery of the same heartbeat makes no difference, nor do other phones.
pub heartbeat_location :
    (table : List DeviceSettings) (device : ℕ) (dto : Heartbeat) (now : ℕ) (db : Db) (d : Device)
    → find_first (λ d. d.id == device) db.devices ≡ some d
    → IsDeduped db
    → open_count d.company_id
        (Key.location_disabled d.id)
        (heartbeat table device dto now db).1.alerts
      ≡ open_given dto.gps (open_count d.company_id (Key.location_disabled d.id) db.alerts)
heartbeat_location table device dto now db d found h =
    rw (heartbeat_run table device dto now db d found)
      (checked_location table (seen dto now d) dto now (store_seen table device dto now db) h)
