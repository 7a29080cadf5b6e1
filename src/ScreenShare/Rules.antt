-- ===== src/ScreenShare/Rules.antt =====
-- apps/api/src/screen-share/rules.ts: the states of a sharing session, and when a frame may pass.
pub mod Machine
use phone_control.Common.{
  ℕ, Bool, true, false, not, ◌&&◌, List, [], ◌∷◌, Option, none, some, ltb, leb, if◌then◌else◌,
}
use phone_control.Store.Enums.{ScreenShareState}

pub data ScreenShareEvent : Type 0 where
  driver_accepts driver_refuses driver_stops admin_stops capture_failed deadline_reached :
      ScreenShareEvent

-- TERMINAL_STATES
abbrev pub is_terminal : ScreenShareState → Bool
is_terminal ScreenShareState.requested = false
is_terminal ScreenShareState.accepted = false
is_terminal _ = true

-- The messages of a refusal, by what they say.
pub data Refusal : Type 0 where
  already_over : ScreenShareState → Refusal
  consent_not_pending refusal_not_pending nothing_to_stop : Refusal

pub record TransitionResult : Type 0 where
  pub state : ScreenShareState
  pub applied : Bool
  pub refusal : Option Refusal

applies : ScreenShareState → TransitionResult
applies state = record { state = state; applied = true; refusal = none }

refuses : ScreenShareState → Option Refusal → TransitionResult
refuses state refusal = record { state = state; applied = false; refusal = refusal }

-- Events that a finished session takes without a complaint.
is_harmless : ScreenShareEvent → Bool
is_harmless admin_stops = true
is_harmless driver_stops = true
is_harmless deadline_reached = true
is_harmless _ = false

is_requested : ScreenShareState → Bool
is_requested ScreenShareState.requested = true
is_requested _ = false

abbrev pub is_accepted : ScreenShareState → Bool
is_accepted ScreenShareState.accepted = true
is_accepted _ = false

-- The `switch`, in a state that is not terminal.
on_event : ScreenShareState → ScreenShareEvent → TransitionResult
unfolding applies refuses is_requested
on_event state deadline_reached = applies ScreenShareState.expired
on_event state admin_stops = applies ScreenShareState.ended_by_admin
on_event state capture_failed = applies ScreenShareState.failed
on_event state driver_accepts =
    if not (is_requested state)
    then refuses state (some consent_not_pending)
    else applies ScreenShareState.accepted
on_event state driver_refuses =
    if not (is_requested state)
    then refuses state (some refusal_not_pending)
    else applies ScreenShareState.refused
on_event state driver_stops =
    if not (is_accepted state)
    then refuses state (some nothing_to_stop)
    else applies ScreenShareState.ended_by_driver

unfoldable pub transition : ScreenShareState → ScreenShareEvent → TransitionResult
unfolding on_event is_harmless refuses
transition state event =
    if is_terminal state
    then refuses state (if is_harmless event then none else some (already_over state))
    else on_event state event

-- Why a frame is not accepted.
pub data FrameRefusal : Type 0 where
  no_answer_yet deadline_passed : FrameRefusal
  not_running : ScreenShareState → FrameRefusal

-- `none` stands for `{ ok: true }`.
unfoldable pub accepts_frames : ScreenShareState → (expires_at now : ℕ) → Option FrameRefusal
unfolding is_requested
accepts_frames state expires_at now =
    if not (is_accepted state)
    then some (if is_requested state then no_answer_yet else not_running state)
    else if leb expires_at now
    then some deadline_passed
    else none

unfoldable pub awaits_decision : ScreenShareState → (expires_at now : ℕ) → Bool
unfolding is_requested
awaits_decision state expires_at now = is_requested state && ltb now expires_at
