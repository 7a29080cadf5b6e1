-- ===== src/ScreenShare/Service/Consent.antt =====
-- What passes to the administrator, and on whose word.
use phone_control.Common.{
  ℕ, ◌+◌, ◌≤◌, ◌<◌, ◌≡◌, refl, sym, ap, ◌∙◌, ◌==◌, ==_iff, true, ltb, [], ◌∷◌, ◌++◌, none, some,
  arith, Option-cases, Bool-cases, inl, inr, find_first,
}
use phone_control.Common.Ids.{find_first-update_where}
use phone_control.Store.Enums.{ScreenShareState}
use phone_control.Store.{ScreenShareSession, Db, Message, done, raised, Error}
use phone_control.ScreenShare.Rules.{transition, accepts_frames}
use phone_control.ScreenShare.Rules.Machine.{accepts_frames_iff}
use phone_control.ScreenShare.Service.{Limits, is_share_of, record_consent, relay_frame, answered}

module _ (device id image bytes now : ℕ) (limits : Limits) (db : Db) where
  abbrev pub Sent : ScreenShareSession → ℕ → Type 0
  Sent s n =
      (s.state ≡ ScreenShareState.accepted)
      × (now < s.expires_at)
      × (bytes ≤ limits.max_frame_bytes)
      × ((relay_frame device id image bytes limits now db).1.outbox
          ≡ db.outbox ++ Message.screen_share_frame s.requested_by s.id image n ∷ [])

  relay_found :
      (s : ScreenShareSession) (n : ℕ)
      → find_first (is_share_of device id) db.screen_shares ≡ some s
      → (relay_frame device id image bytes limits now db).0 ≡ done n
      → Sent s n
  unfolding relay_frame
  relay_found s n found h = elim (Option-cases (accepts_frames s.state s.expires_at now)) [
    | inr (r, refused) ↦ absurd (cc (rw (found, refused, relay_frame) at h))
    | inl open_now ↦ elim (Bool-cases (ltb limits.max_frame_bytes bytes)) [
      | inl large ↦ absurd (cc (rw (found, open_now, large, relay_frame) at h))
      | inr fits ↦
          let (running, early) = (accepts_frames_iff s.state s.expires_at now).0 open_now in
          let same = rw (found, open_now, fits, relay_frame) at h in
          (running, early, ground arith, rw (found, open_now, fits, relay_frame) (cc same))
    ]
  ]

  -- A frame that is relayed goes to the administrator of a session of this phone that is running,
  -- has not reached its deadline, and allows a frame of this length.
  pub relay_frame_sends :
      (n : ℕ)
      → (relay_frame device id image bytes limits now db).0 ≡ done n
      → (s : ScreenShareSession) × (find_first (is_share_of device id) db.screen_shares ≡ some s)
        × Sent s n
  unfolding relay_frame
  relay_frame_sends n h =
      elim (Option-cases (find_first (is_share_of device id) db.screen_shares)) [
        | inl missing ↦ absurd (cc (rw (missing, relay_frame) at h))
        | inr (s, found) ↦ (s, found, relay_found s n found h)
      ]

  -- A frame that is refused leaves the database and the messages as they were.
  pub relay_frame_refused :
      (e : Error)
      → (relay_frame device id image bytes limits now db).0 ≡ raised e
      → (relay_frame device id image bytes limits now db).1 ≡ db
  unfolding relay_frame
  relay_frame_refused e h = ground arith

module _ (device id now : ℕ) (limits : Limits) (db : Db) where
  consent_run :
      (s s' : ScreenShareSession)
      → find_first (is_share_of device id) db.screen_shares ≡ some s
      → (record_consent device id true limits now db).0 ≡ done s'
      → (s.state ≡ ScreenShareState.requested)
        × (s' ≡ answered true ScreenShareState.accepted limits now s)
  unfolding record_consent transition
  consent_run s s' found h = (ground (arith, found), ground (arith, found))

  consent_stored :
      (s : ScreenShareSession)
      → find_first (is_share_of device id) db.screen_shares ≡ some s
      → s.state ≡ ScreenShareState.requested
      → find_first
          (is_share_of device id)
          (record_consent device id true limits now db).1.screen_shares
        ≡ some (answered true ScreenShareState.accepted limits now s)
  unfolding record_consent transition
  consent_stored s found waiting =
      rw (found, record_consent)
        (rw (waiting, transition)
          (find_first-update_where (is_share_of device id) (λ x. x.id == s.id)
              (answered true ScreenShareState.accepted limits now) db.screen_shares s (λ x. refl)
              found
            ∙ rw ((==_iff s.id s.id).1 refl) refl))

  -- A yes of the driver that is taken goes to a session of this phone that was still waiting for the
  -- answer. The session that is answered, and is then found in the database, is running; it started
  -- now, ends after the longest duration from now, and is for the same administrator and phone.
  pub record_consent_grants :
      (s' : ScreenShareSession)
      → (record_consent device id true limits now db).0 ≡ done s'
      → (s : ScreenShareSession) × (find_first (is_share_of device id) db.screen_shares ≡ some s)
        × (s.state ≡ ScreenShareState.requested)
        × (s'.state ≡ ScreenShareState.accepted)
        × (s'.started_at ≡ some now)
        × (s'.expires_at ≡ now + limits.max_duration_ms)
        × (s'.ended_at ≡ s.ended_at)
        × (s'.requested_by ≡ s.requested_by)
        × (s'.device_id ≡ s.device_id)
        × (find_first
              (is_share_of device id)
              (record_consent device id true limits now db).1.screen_shares
            ≡ some s')
  unfolding record_consent transition
  record_consent_grants s' h =
      elim (Option-cases (find_first (is_share_of device id) db.screen_shares)) [
        | inl missing ↦ absurd (cc (rw (missing, record_consent) at h))
        | inr (s, found) ↦
            let (waiting, same) = consent_run s s' found h in
            let granted = answered true ScreenShareState.accepted limits now s in
            (
              s,
              found,
              waiting,
              ap (λ x. x.state) same,
              ap (λ x. x.started_at) same,
              ap (λ x. x.expires_at) same,
              ap (λ x. x.ended_at) same,
              ap (λ x. x.requested_by) same,
              ap (λ x. x.device_id) same,
              consent_stored s found waiting ∙ ap some (sym same),
            )
      ]

  -- A request whose deadline has passed is granted all the same, as long as nothing has closed it,
  -- and frames then pass for the longest duration.
  pub record_consent_late :
      (s : ScreenShareSession) (later : ℕ)
      → find_first (is_share_of device id) db.screen_shares ≡ some s
      → s.state ≡ ScreenShareState.requested
      → s.expires_at ≤ now
      → later < now + limits.max_duration_ms
      → (s' : ScreenShareSession) × ((record_consent device id true limits now db).0 ≡ done s')
        × (accepts_frames s'.state s'.expires_at later ≡ none)
  unfolding record_consent transition
  record_consent_late s later found waiting late soon = (
    answered true ScreenShareState.accepted limits now s,
    rw (found, record_consent) (ground arith),
    (accepts_frames_iff ScreenShareState.accepted (now + limits.max_duration_ms) later).1
        (refl, soon),
  )
