-- ===== src/Examples/Hours.antt =====
-- The hours of a depot, and positions.
use phone_control.Common.{ℕ, ◌+◌, ◌*◌, ◌≡◌, ◌↔◌, refl, true, false, [], none, some, arith}
use phone_control.Rules.Clock.{LocalTime, parse_time}
use phone_control.Rules.Schedule.{ok, operational_day_of, instant_for_local_time, next_lock_instant}
use phone_control.Rules.Schedule.Days.{IsRegular, operational_day_of-instant_for_local_time}
use phone_control.Rules.Schedule.Locks.{IsFirst, QuietDays, next_lock_instant_iff}
use phone_control.Rules.Geofence.{active, GeofenceDecision, GeofenceEventType}
use phone_control.Examples.{utc, depot, two_am}

abbrev ten : LocalTime
ten = record { hour = 22; minute = 0 }

IsRegular-utc : (day : ℕ) → IsRegular utc [] day
IsRegular-utc day t h = ground arith

operational_day_of-instant_for_local_time_example :
    operational_day_of utc depot (5 * 86400000 + 7200000) ≡ ok 4
unfolding instant_for_local_time parse_time
operational_day_of-instant_for_local_time_example =
    operational_day_of-instant_for_local_time utc depot 4 (5 * 86400000 + 7200000) two_am
      (IsRegular-utc 4) (IsRegular-utc 5) refl

-- The lock instant of operational day 4 is at 02:00 of day 5.
next_lock_instant_iff_example :
    ((next_lock_instant utc depot (4 * 86400000 + 79200000) 1 ≡ ok (some (5 * 86400000 + 7200000)))
      ↔ IsFirst utc depot (4 * 86400000 + 79200000) 4 2 (5 * 86400000 + 7200000))
    × ((next_lock_instant utc depot (4 * 86400000 + 79200000) 1 ≡ ok none)
        ↔ QuietDays utc depot (4 * 86400000 + 79200000) 4 2)
unfolding operational_day_of parse_time
next_lock_instant_iff_example =
    next_lock_instant_iff utc depot (4 * 86400000 + 79200000) 1 4 (5 * 86400000 + 7200000) refl

-- An exit after the return.
abbrev pub left_again : GeofenceDecision
left_again = record {
  event_type = GeofenceEventType.after_return_exit;
  next_session_state = active;
  mark_returned = false;
  alert = true;
}
