-- ===== src/Rules/Geofence.antt =====
-- apps/api/src/rules/geofence-rules.ts: what the server decides on a transition at a depot, and the
-- classification of a position. Distances are whole numbers of one small unit.
pub mod Decisions
pub mod Positions
use phone_control.Common.{ℕ, ◌+◌, Bool, true, false, not, Option, none, some, ltb, if◌then◌else◌}
use phone_control.Rules.Schedule.{
  Calendar, DepotSchedule, Checked, ok, misconfigured, ◌>>=◌, is_after_return_time,
}

pub data TransitionKind : Type 0 where
  enter exit : TransitionKind

pub data GeofenceEventType : Type 0 where
  enter_depot exit_depot enter_depot_after_return_time after_return_exit : GeofenceEventType

pub data SessionState : Type 0 where
  active returned : SessionState

-- `alert` is the one alert that the code knows, AFTER_RETURN_EXIT of severity HIGH, or null.
-- The texts `title` and `reason` are left out.
pub record GeofenceDecision : Type 0 where
  pub event_type : GeofenceEventType
  pub next_session_state : SessionState
  pub mark_returned : Bool
  pub alert : Bool

abbrev pub is_returned : SessionState → Bool
is_returned active = false
is_returned returned = true

on_enter : Bool → SessionState → GeofenceDecision
on_enter false state = record {
  event_type = enter_depot;
  next_session_state = state;
  mark_returned = false;
  alert = false;
}
on_enter true state = record {
  event_type = enter_depot_after_return_time;
  next_session_state = returned;
  mark_returned = not (is_returned state);
  alert = false;
}

on_exit : SessionState → GeofenceDecision
on_exit returned = record {
  event_type = after_return_exit;
  next_session_state = active;
  mark_returned = false;
  alert = true;
}
on_exit active = record {
  event_type = exit_depot;
  next_session_state = active;
  mark_returned = false;
  alert = false;
}

unfoldable pub evaluate_geofence_transition :
    Calendar → DepotSchedule → TransitionKind → ℕ → SessionState → Checked GeofenceDecision
unfolding on_enter on_exit
evaluate_geofence_transition c s enter occurred_at state = do
  after_return ← is_after_return_time c s occurred_at
  ok (on_enter after_return state)
evaluate_geofence_transition c s exit occurred_at state = ok (on_exit state)

pub data FixClassification : Type 0 where
  inside_certain outside_certain undetermined : FixClassification

-- `d - a > r + h` is `r + h + a < d`, which has no subtraction.
unfoldable pub classify_fix : (distance accuracy radius hysteresis : ℕ) → FixClassification
classify_fix d a r h =
    if ltb (d + a) r
    then inside_certain
    else if ltb (r + h + a) d
    then outside_certain
    else undetermined
