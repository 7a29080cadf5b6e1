-- ===== src/Rules/Schedule/Priority.antt =====
-- Which level of the overrides decides the hours of a day.
use phone_control.Common.{ℕ, ◌≡◌, Option, none, some, arith, List, [], ◌∷◌}
use phone_control.Rules.Clock.{Text}
use phone_control.Rules.Schedule.{
  Calendar, DepotSchedule, ScheduleOverrides, PartialRules, Holiday, Special, no_rules,
  lookup_weekday, holiday_on, special_on, resolve_day_rules,
}

-- The first level that defines a field, from the most important one down.
abbrev pub first_defined : List (Option (Option Text)) → Option Text → Option Text
first_defined [] base = base
first_defined (none ∷ levels) base = first_defined levels base
first_defined (some v ∷ levels) base = v

abbrev pub special_rules : Option Special → PartialRules
special_rules none = record { return_time = none; lock_time = none }
special_rules (some s) = s.rules

abbrev pub holiday_rules : Option Holiday → Option PartialRules
holiday_rules none = some (record { return_time = none; lock_time = none })
holiday_rules (some h) = h.rules

abbrev pub weekday_rules : Option (Option PartialRules) → Option PartialRules
weekday_rules none = some (record { return_time = none; lock_time = none })
weekday_rules (some r) = r

module _ (c : Calendar) (s : DepotSchedule) (o : ScheduleOverrides) (day : ℕ)
    (has_overrides : s.overrides ≡ some o) where
  -- With overrides whose weekday entry is `w` and whose holiday entry is `h`, neither of them null,
  -- both hours of the day come from the first level that defines them: special period, holiday,
  -- weekday, depot.
  pub resolve_day_rules_priority :
      (w h : PartialRules)
      → weekday_rules (lookup_weekday (c.weekday day) o.weekdays) ≡ some w
      → holiday_rules (holiday_on day o.holidays) ≡ some h
      → ((resolve_day_rules c s day).return_time
          ≡ first_defined
              ((special_rules (special_on day o.special)).return_time
                ∷ h.return_time
                ∷ w.return_time
                ∷ [])
              (some s.return_time))
        × ((resolve_day_rules c s day).lock_time
            ≡ first_defined
                ((special_rules (special_on day o.special)).lock_time
                  ∷ h.lock_time
                  ∷ w.lock_time
                  ∷ [])
                (some s.lock_time))
  unfolding resolve_day_rules
  resolve_day_rules_priority w h ew eh = ground arith

  -- A null weekday entry leaves the day without any rule, also when a special period that covers
  -- the day sets hours of its own.
  pub resolve_day_rules_null_weekday :
      lookup_weekday (c.weekday day) o.weekdays ≡ some none → resolve_day_rules c s day ≡ no_rules
  unfolding resolve_day_rules
  resolve_day_rules_null_weekday e = ground arith
