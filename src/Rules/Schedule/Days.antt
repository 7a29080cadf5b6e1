-- ===== src/Rules/Schedule/Days.antt =====
-- The operational day: an hour of the day `d`, taken to an instant, belongs to `d` again.
use phone_control.Common.{ℕ, ◌+◌, ◌≡◌, arith, inl, inr, Option-cases}
use phone_control.Rules.Clock.{Text, LocalTime, parse_time}
use phone_control.Rules.Clock.Exactness.{IsTime, parse_time_sound}
use phone_control.Rules.Schedule.{
  Calendar, DepotSchedule, ok, operational_day_of, instant_for_local_time,
}

-- On this day the zone's clock shows each time of the day at the instant that Luxon gives for it:
-- the day has no change of clocks.
abbrev pub IsRegular : Calendar → Text → ℕ → Type 0
IsRegular c zone day =
    (t : LocalTime)
    → IsTime t
    → c.local zone (c.instant zone day t) ≡ record { day = day; time = t }

module _ (c : Calendar) (s : DepotSchedule) where
  -- The instant of an hour of operational day `day` belongs to that operational day, also when the
  -- hour is before the start of the day and falls on the next date, if neither date has a change of
  -- clocks.
  pub operational_day_of-instant_for_local_time :
      (day instant : ℕ) (text : Text)
      → IsRegular c s.timezone day
      → IsRegular c s.timezone (day + 1)
      → instant_for_local_time c s day text ≡ ok instant
      → operational_day_of c s instant ≡ ok day
  unfolding operational_day_of instant_for_local_time
  operational_day_of-instant_for_local_time day instant text r r' e =
      elim (Option-cases (parse_time text)) [
        | inl bad ↦ ground arith
        | inr (t, good) ↦
            let is_time = (parse_time_sound text t good).0 in
            ground (arith, r t is_time, r' t is_time, good)
      ]
