-- ===== src/Examples/Sharing.antt =====
-- The sharing of a screen.
use phone_control.Common.{◌≡◌, ◌↔◌, ◌⊎◌, refl, true, some, arith}
use phone_control.Store.Enums.{ScreenShareState}
use phone_control.Store.{ScreenShareSession}
use phone_control.Common.{find_first, some}
use phone_control.ScreenShare.Rules.{driver_accepts, transition}
use phone_control.ScreenShare.Rules.Machine.{Step, transition_iff}
use phone_control.ScreenShare.Service.{
  Limits, Request, record_consent, request, answered, is_share_of,
}
use phone_control.ScreenShare.Service.Consent.{record_consent_grants}
use phone_control.ScreenShare.Service.Exclusive.{IsSingle, request-IsSingle}
use phone_control.Examples.{db, waiting}

abbrev limits : Limits
limits = record { response_timeout_ms = 50; max_duration_ms = 900; max_frame_bytes = 1000 }

transition_iff_example :
    (Step ScreenShareState.requested driver_accepts ScreenShareState.accepted
      ↔ ((transition ScreenShareState.requested driver_accepts).applied ≡ true)
        × ((transition ScreenShareState.requested driver_accepts).state
            ≡ ScreenShareState.accepted))
    × (((transition ScreenShareState.requested driver_accepts).applied ≡ true)
        ⊎ ((transition ScreenShareState.requested driver_accepts).state
            ≡ ScreenShareState.requested))
transition_iff_example =
    transition_iff ScreenShareState.requested ScreenShareState.accepted driver_accepts

record_consent_grants_example :
    let s' = answered true ScreenShareState.accepted limits 30 waiting in
    (s : ScreenShareSession) × (some waiting ≡ some s)
    × (s.state ≡ ScreenShareState.requested)
    × (s'.state ≡ ScreenShareState.accepted)
    × (s'.started_at ≡ some 30)
    × (s'.expires_at ≡ 930)
    × (s'.ended_at ≡ s.ended_at)
    × (s'.requested_by ≡ s.requested_by)
    × (s'.device_id ≡ s.device_id)
    × (find_first (is_share_of 7 80) (record_consent 7 80 true limits 30 db).1.screen_shares
        ≡ some s')
unfolding record_consent transition
record_consent_grants_example =
    record_consent_grants 7 80 30 limits db
      (answered true ScreenShareState.accepted limits 30 waiting) refl

db-IsSingle : IsSingle db.screen_shares
db-IsSingle device = ground arith

abbrev again : Request
again = record { company_id = 1; device_id = 7; admin_id = 2 }

request-IsSingle_example : IsSingle (request (some 1) again limits 100 db).1.screen_shares
request-IsSingle_example = request-IsSingle (some 1) again limits 100 db db-IsSingle
