-- ===== src/Rules/Schedule.antt =====
-- apps/api/src/rules/schedule.ts: the hours of a depot. Luxon is the parameter `Calendar`; a day is
-- its number, counted from an origin before every date in use, and an instant is in milliseconds.
pub mod Priority
pub mod Days
pub mod Locks
use phone_control.Common.{
  ◌⊎◌, inl, inr, ℕ, zero, suc, ◌+◌, ◌-◌, ◌≤◌, Bool, true, false, ◌&&◌, List, [], ◌∷◌, Option, none,
  some, ltb, leb, ◌≡◌, refl, ◌==◌, if◌then◌else◌, get_or, find_first,
}
use phone_control.Rules.Clock.{Text, LocalTime, minutes, parse_time}

pub record Local : Type 0 where
  pub day : ℕ
  pub time : LocalTime

-- What the code takes from Luxon.
pub record Calendar : Type 0 where
  -- `DateTime.local().setZone(zone).isValid`
  pub zone_valid : Text → Bool
  -- `DateTime.fromJSDate(instant, { zone })`: its date, hour and minute
  pub local : Text → ℕ → Local
  -- `.weekday`, 1 for Monday
  pub weekday : ℕ → ℕ
  -- `.set({ hour, minute, second: 0, millisecond: 0 }).toUTC()` on a date in a zone
  pub instant : Text → ℕ → LocalTime → ℕ

pub record DayRules : Type 0 where
  pub return_time : Option Text
  pub lock_time : Option Text

-- `Partial<DayRules>`: `none` is undefined, `some none` is null.
pub record PartialRules : Type 0 where
  pub return_time : Option (Option Text)
  pub lock_time : Option (Option Text)

pub record Holiday : Type 0 where
  pub date : ℕ
  pub rules : Option PartialRules

pub record Special : Type 0 where
  pub from : ℕ
  pub to : ℕ
  pub rules : PartialRules

-- The three keys; an absent one is the empty list.
pub record ScheduleOverrides : Type 0 where
  pub weekdays : List (ℕ × Option PartialRules)
  pub holidays : List Holiday
  pub special : List Special

pub record DepotSchedule : Type 0 where
  pub timezone : Text
  pub return_time : Text
  pub lock_time : Text
  pub operational_day_start : Text
  pub overrides : Option ScheduleOverrides

-- `ScheduleConfigError`, by what it reports.
pub data ConfigError : Type 0 where
  unknown_zone invalid_time : ConfigError

-- A value, or the exception.
pub data Checked (A : Type 0) : Type 0 where
  ok : A → Checked A
  misconfigured : ConfigError → Checked A

infixl 5 ◌>>=◌ ◌>>◌
abbrev pub ◌>>=◌ : {A B : Type 0} → Checked A → (A → Checked B) → Checked B
ok value >>= next = next value
misconfigured reason >>= next = misconfigured reason

abbrev pub ◌>>◌ : {A : Type 0} → Checked (Unit {0}) → Checked A → Checked A
ok done >> rest = rest
misconfigured reason >> rest = misconfigured reason

-- A chain that succeeds has a first step that succeeds.
pub >>=-eq-ok :
    {A B : Type 0} (step : Checked A) (next : A → Checked B) {result : B}
    → (step >>= next) ≡ ok result
    → (value : A) × (step ≡ ok value) × (next value ≡ ok result)
>>=-eq-ok (ok value) next e = (value, refl, e)
>>=-eq-ok (misconfigured reason) next e = absurd (cc e)

pub Checked-cases :
    {A : Type 0} (m : Checked A)
    → ((a : A) × (m ≡ ok a)) ⊎ ((reason : ConfigError) × (m ≡ misconfigured reason))
Checked-cases (ok a) = inl (a, refl)
Checked-cases (misconfigured reason) = inr (reason, refl)

abbrev pub or_fail : {A : Type 0} → Option A → ConfigError → Checked A
or_fail none e = misconfigured e
or_fail (some a) e = ok a

-- A text counts as false when it is null or empty.
abbrev pub truthy : Option Text → Option Text
truthy (some (c ∷ s)) = some (c ∷ s)
truthy _ = none

abbrev pub no_rules : DayRules
no_rules = record { return_time = none; lock_time = none }

apply_partial : PartialRules → DayRules → DayRules
apply_partial p r = record {
  return_time = get_or p.return_time r.return_time;
  lock_time = get_or p.lock_time r.lock_time;
}

unfoldable pub lookup_weekday : ℕ → List (ℕ × Option PartialRules) → Option (Option PartialRules)
lookup_weekday k [] = none
lookup_weekday k ((j, v) ∷ m) = if j == k then some v else lookup_weekday k m

abbrev pub holiday_on : ℕ → List Holiday → Option Holiday
holiday_on day = find_first λ h. h.date == day

abbrev pub special_on : ℕ → List Special → Option Special
special_on day = find_first λ s. leb s.from day && leb day s.to

-- `none` is the early return with no rule at all.
weekday_step : Option (Option PartialRules) → DayRules → Option DayRules
weekday_step none r = some r
weekday_step (some none) r = none
weekday_step (some (some p)) r = some (apply_partial p r)

holiday_step : Option Holiday → DayRules → Option DayRules
holiday_step none r = some r
holiday_step (some h) r = elim h.rules [ none ↦ none | some p ↦ some (apply_partial p r) ]

special_step : Option Special → DayRules → DayRules
special_step none r = r
special_step (some s) r = apply_partial s.rules r

-- The three levels, from the least to the most important.
layer : Option (Option PartialRules) → Option Holiday → Option Special → DayRules → DayRules
unfolding weekday_step holiday_step special_step apply_partial
layer w h s base = elim (weekday_step w base) [
  | none ↦ no_rules
  | some r ↦ elim (holiday_step h r) [ none ↦ no_rules | some r' ↦ special_step s r' ]
]

module _ (c : Calendar) (s : DepotSchedule) where
  -- The rules of the depot, before any exception.
  abbrev pub base_rules : DayRules
  base_rules = record { return_time = some s.return_time; lock_time = some s.lock_time }

  unfoldable pub resolve_day_rules : ℕ → DayRules
  unfolding layer lookup_weekday
  resolve_day_rules day = elim s.overrides [
    | none ↦ base_rules
    | some o ↦
        layer (lookup_weekday (c.weekday day) o.weekdays) (holiday_on day o.holidays)
          (special_on day o.special) base_rules
  ]

  abbrev pub assert_zone : Checked (Unit {0})
  assert_zone = if c.zone_valid s.timezone then ok tt else misconfigured unknown_zone

  unfoldable pub to_depot_time : ℕ → Checked Local
  to_depot_time instant = do assert_zone; ok (c.local s.timezone instant)

  unfoldable pub operational_day_of : ℕ → Checked ℕ
  unfolding to_depot_time
  operational_day_of instant = do
    local ← to_depot_time instant
    start ← or_fail (parse_time s.operational_day_start) invalid_time
    ok (if ltb (minutes local.time) (minutes start) then local.day - 1 else local.day)

  unfoldable pub instant_for_local_time : ℕ → Text → Checked ℕ
  instant_for_local_time day text = do
    assert_zone
    time ← or_fail (parse_time text) invalid_time
    start ← or_fail (parse_time s.operational_day_start) invalid_time
    let spills = ltb (minutes time) (minutes start)
    ok (c.instant s.timezone (day + (if spills then 1 else 0)) time)

  unfoldable pub return_instant_for : ℕ → Checked (Option ℕ)
  return_instant_for instant = do
    day ← operational_day_of instant
    elim (truthy (resolve_day_rules day).return_time) [
      | none ↦ ok none
      | some text ↦ do t ← instant_for_local_time day text; ok (some t)
    ]

  unfoldable pub is_after_return_time : ℕ → Checked Bool
  is_after_return_time instant = do
    day ← operational_day_of instant
    elim (truthy (resolve_day_rules day).return_time) [
      | none ↦ ok false
      | some text ↦ do threshold ← instant_for_local_time day text; ok (leb threshold instant)
    ]

  -- The lock instant of one day, in a round of the loop below.
  unfoldable pub lock_instant_on : ℕ → Checked (Option ℕ)
  lock_instant_on day = elim (truthy (resolve_day_rules day).lock_time) [
    | none ↦ ok none
    | some text ↦ do t ← instant_for_local_time day text; ok (some t)
  ]

  abbrev is_later : Option ℕ → ℕ → Bool
  is_later none from = false
  is_later (some t) from = ltb from t

  -- The loop of `nextLockInstant`, on the rounds left.
  unfoldable pub next_lock_from : ℕ → ℕ → ℕ → Checked (Option ℕ)
  next_lock_from zero from day = ok none
  next_lock_from (suc rounds) from day =
      let rest = next_lock_from rounds from (day + 1) in
      do found ← lock_instant_on day; if is_later found from then ok found else rest

  unfoldable pub next_lock_instant : ℕ → ℕ → Checked (Option ℕ)
  unfolding next_lock_from
  next_lock_instant from horizon_days = do
    day ← operational_day_of from
    next_lock_from (suc horizon_days) from day
