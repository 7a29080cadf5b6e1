-- ===== src/Rules/Geofence/Decisions.antt =====
-- The decisions of `evaluateGeofenceTransition`, one at a time and along a tour.
use phone_control.Common.{ℕ, suc, ◌+◌, ◌≡◌, ◌↔◌, true, List, [], ◌∷◌, arith, if◌then◌else◌}
use phone_control.Rules.Schedule.{
  Calendar, DepotSchedule, Checked, ok, ◌>>=◌, >>=-eq-ok, is_after_return_time,
}
use phone_control.Rules.Geofence.{
  TransitionKind, enter, exit, SessionState, active, returned, GeofenceDecision,
  evaluate_geofence_transition,
}

module _ (c : Calendar) (s : DepotSchedule) where
  -- A decision raises the alert exactly for an exit of a returned session, and marks the return
  -- exactly for an entry after the return hour of a session that is not yet returned.
  pub evaluate_geofence_transition_iff :
      (kind : TransitionKind) (at : ℕ) (state : SessionState) (d : GeofenceDecision)
      → evaluate_geofence_transition c s kind at state ≡ ok d
      → ((d.alert ≡ true) ↔ ((kind ≡ exit) × (state ≡ returned)))
        × ((d.mark_returned ≡ true)
            ↔ ((kind ≡ enter) × (is_after_return_time c s at ≡ ok true) × (state ≡ active)))
  unfolding evaluate_geofence_transition
  evaluate_geofence_transition_iff enter at state d e = ground arith
  evaluate_geofence_transition_iff exit at state d e = ground arith

  -- The loop over the transitions of a tour: the final state, the returns marked, the alerts raised.
  unfoldable pub tour : SessionState → List (TransitionKind × ℕ) → Checked (SessionState × ℕ × ℕ)
  tour state [] = ok (state, 0, 0)
  tour state ((kind, at) ∷ rest) = do
    d ← evaluate_geofence_transition c s kind at state
    (final, marks, alerts) ← tour d.next_session_state rest
    ok (
      final,
      (if d.mark_returned then suc marks else marks),
      (if d.alert then suc alerts else alerts),
    )

  abbrev pub one_if_returned : SessionState → ℕ
  one_if_returned active = 0
  one_if_returned returned = 1

  step_balance :
      (kind : TransitionKind) (at : ℕ) (state : SessionState) (d : GeofenceDecision)
      → evaluate_geofence_transition c s kind at state ≡ ok d
      → one_if_returned state + (if d.mark_returned then 1 else 0)
        ≡ one_if_returned d.next_session_state + (if d.alert then 1 else 0)
  unfolding evaluate_geofence_transition
  step_balance enter at state d e = ground arith
  step_balance exit at state d e = ground arith

  -- Along any sequence of transitions the returns that are marked and the alerts that are raised
  -- alternate: their difference is that of the states at the two ends, so an alert is raised for
  -- each return that was left again, and for nothing else.
  pub tour_balance :
      (ts : List (TransitionKind × ℕ)) (state final : SessionState) (marks alerts : ℕ)
      → tour state ts ≡ ok (final, marks, alerts)
      → one_if_returned state + marks ≡ one_if_returned final + alerts
  unfolding tour
  tour_balance [] state final marks alerts e = ground arith
  tour_balance ((kind, at) ∷ rest) state final marks alerts e =
      let (d, decided, e') = >>=-eq-ok (evaluate_geofence_transition c s kind at state) _ e in
      let ((f, m, a), toured, e'') = >>=-eq-ok (tour d.next_session_state rest) _ e' in
      ground (
        arith,
        step_balance kind at state d decided,
        tour_balance rest d.next_session_state f m a toured,
        e'',
      )
