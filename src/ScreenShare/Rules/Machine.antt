-- ===== src/ScreenShare/Rules/Machine.antt =====
-- The life of a sharing session: its transitions as a relation, and what holds along them.
use phone_control.Common.{ℕ, ◌≡◌, ◌<◌, ◌↔◌, ◌⊎◌, inl, inr, true, List, [], ◌∷◌, none, arith, refl}
use phone_control.Common.Ids.{Within}
use phone_control.Store.Enums.{ScreenShareState}
use phone_control.ScreenShare.Rules.{
  ScreenShareEvent, driver_accepts, driver_refuses, driver_stops, admin_stops, capture_failed,
  deadline_reached, is_terminal, transition, accepts_frames,
}

-- Who may do what: the driver answers a request and stops a running session; the administrator,
-- a failed capture and the deadline end both.
pub data Step : ScreenShareState → ScreenShareEvent → ScreenShareState → Type 0 where
  accept : Step ScreenShareState.requested driver_accepts ScreenShareState.accepted
  refuse : Step ScreenShareState.requested driver_refuses ScreenShareState.refused
  stop : Step ScreenShareState.accepted driver_stops ScreenShareState.ended_by_driver
  cancel : Step ScreenShareState.requested admin_stops ScreenShareState.ended_by_admin
  cut : Step ScreenShareState.accepted admin_stops ScreenShareState.ended_by_admin
  not_started : Step ScreenShareState.requested capture_failed ScreenShareState.failed
  broken : Step ScreenShareState.accepted capture_failed ScreenShareState.failed
  unanswered : Step ScreenShareState.requested deadline_reached ScreenShareState.expired
  timed_out : Step ScreenShareState.accepted deadline_reached ScreenShareState.expired

Step-of_applied :
    (s : ScreenShareState) (e : ScreenShareEvent)
    → (transition s e).applied ≡ true
    → Step s e (transition s e).state
unfolding transition
Step-of_applied ScreenShareState.requested driver_accepts h = accept
Step-of_applied ScreenShareState.requested driver_refuses h = refuse
Step-of_applied ScreenShareState.requested admin_stops h = cancel
Step-of_applied ScreenShareState.requested capture_failed h = not_started
Step-of_applied ScreenShareState.requested deadline_reached h = unanswered
Step-of_applied ScreenShareState.requested driver_stops h = cc
Step-of_applied ScreenShareState.accepted driver_stops h = stop
Step-of_applied ScreenShareState.accepted admin_stops h = cut
Step-of_applied ScreenShareState.accepted capture_failed h = broken
Step-of_applied ScreenShareState.accepted deadline_reached h = timed_out
Step-of_applied ScreenShareState.accepted driver_accepts h = cc
Step-of_applied ScreenShareState.accepted driver_refuses h = cc
Step-of_applied _ _ h = cc

applied_of_Step :
    {s t : ScreenShareState} {e : ScreenShareEvent}
    → Step s e t
    → ((transition s e).applied ≡ true) × ((transition s e).state ≡ t)
unfolding transition
applied_of_Step accept = (refl, refl)
applied_of_Step refuse = (refl, refl)
applied_of_Step stop = (refl, refl)
applied_of_Step cancel = (refl, refl)
applied_of_Step cut = (refl, refl)
applied_of_Step not_started = (refl, refl)
applied_of_Step broken = (refl, refl)
applied_of_Step unanswered = (refl, refl)
applied_of_Step timed_out = (refl, refl)

Step-reaches :
    (s t : ScreenShareState) (e : ScreenShareEvent)
    → (transition s e).applied ≡ true
    → (transition s e).state ≡ t
    → Step s e t
Step-reaches s t e h k = rw (← k) (Step-of_applied s e h)

unapplied :
    (s : ScreenShareState) (e : ScreenShareEvent)
    → ((transition s e).applied ≡ true) ⊎ ((transition s e).state ≡ s)
unfolding transition
unapplied s e = ground arith

-- The relation has a step by an event to a state exactly when `transition` applies the event and
-- gives this state; an event that is not applied leaves the state as it was.
pub transition_iff :
    (s t : ScreenShareState) (e : ScreenShareEvent)
    → (Step s e t ↔ ((transition s e).applied ≡ true) × ((transition s e).state ≡ t))
      × (((transition s e).applied ≡ true) ⊎ ((transition s e).state ≡ s))
transition_iff s t e = ((λ st. applied_of_Step st, λ h. Step-reaches s t e h.0 h.1), unapplied s e)

-- The state after a sequence of events.
unfoldable pub run : ScreenShareState → List ScreenShareEvent → ScreenShareState
run s [] = s
run s (e ∷ es) = run (transition s e).state es

-- A session that is over stays as it is, whatever events follow.
pub run-terminal :
    (s : ScreenShareState) (es : List ScreenShareEvent) → is_terminal s ≡ true → run s es ≡ s
unfolding run transition
run-terminal s [] h = refl
run-terminal s (e ∷ es) h = ground (arith, run-terminal s es)

-- A session that starts as a request and is running after some events has the driver's consent
-- among them.
pub run_consent :
    (es : List ScreenShareEvent)
    → run ScreenShareState.requested es ≡ ScreenShareState.accepted
    → Within driver_accepts es
unfolding run transition
run_consent [] h = cc
run_consent (driver_accepts ∷ es) h = inl refl
run_consent (driver_stops ∷ es) h = inr (run_consent es h)
run_consent (driver_refuses ∷ es) h = absurd (cc (run-terminal ScreenShareState.refused es refl, h))
run_consent (admin_stops ∷ es) h =
    absurd (cc (run-terminal ScreenShareState.ended_by_admin es refl, h))
run_consent (capture_failed ∷ es) h = absurd (cc (run-terminal ScreenShareState.failed es refl, h))
run_consent (deadline_reached ∷ es) h =
    absurd (cc (run-terminal ScreenShareState.expired es refl, h))

deadline_over : (s : ScreenShareState) → is_terminal (transition s deadline_reached).state ≡ true
unfolding transition
deadline_over s = ground arith

-- Once the deadline is among the events the session is over.
pub run_deadline :
    (s : ScreenShareState) (es : List ScreenShareEvent)
    → Within deadline_reached es
    → is_terminal (run s es) ≡ true
unfolding run
run_deadline s [] w = elim w [ ]
run_deadline s (e ∷ es) (inl here) =
    let over = deadline_over s in
    rw (← here) (rw (run-terminal (transition s deadline_reached).state es over) over)
run_deadline s (e ∷ es) (inr later) = run_deadline (transition s e).state es later

-- A frame is accepted exactly in a running session before its deadline.
pub accepts_frames_iff :
    (s : ScreenShareState) (expires_at now : ℕ)
    → (accepts_frames s expires_at now ≡ none)
      ↔ ((s ≡ ScreenShareState.accepted) × (now < expires_at))
unfolding accepts_frames
accepts_frames_iff s expires_at now = ground arith
