-- ===== src/ScreenShare/Service/Lasting.antt =====
-- The answers and the ends of a sharing session leave a phone with at most one.
use phone_control.Common.{
  ℕ, ◌≡◌, ◌∙◌, ap, refl, Bool, true, false, List, some, arith, Option-cases, Bool-cases, inl, inr,
  ◌==◌, ==_iff, find_first, update_where, is_some,
}
use phone_control.Common.Ids.{
  All-of_Within, Within-find_first, DistinctIds, DistinctIds-eq, count_where-update_le,
}
use phone_control.Store.Enums.{ScreenShareState, is_ongoing}
use phone_control.Store.{ScreenShareSession, Db}
use phone_control.ScreenShare.Rules.{ScreenShareEvent, transition}
use phone_control.ScreenShare.Service.{
  Limits, Caller, is_ongoing_on, is_share_of, is_share_for, record_consent, end_share, answered,
  answer_event,
}
use phone_control.ScreenShare.Service.Exclusive.{IsSingle}

-- A transition that applies starts from a session that is waiting or running.
applied_ongoing :
    (state : ScreenShareState) (event : ScreenShareEvent)
    → (transition state event).applied ≡ true
    → is_ongoing state ≡ true
unfolding transition
applied_ongoing state event h = ground arith

-- A change of one session that was waiting or running already.
write-IsSingle :
    (test : ScreenShareSession → Bool) (s : ScreenShareSession) (shares : List ScreenShareSession)
    → (change : ScreenShareSession → ScreenShareSession)
    → ((x : ScreenShareSession) → (change x).device_id ≡ x.device_id)
    → DistinctIds (λ x. x.id) shares
    → find_first test shares ≡ some s
    → is_ongoing s.state ≡ true
    → IsSingle shares
    → IsSingle (update_where (λ x. x.id == s.id) change shares)
write-IsSingle test s shares change blind ids found ongoing h device =
    let fewer =
      count_where-update_le (is_ongoing_on device) (λ x. x.id == s.id) change shares
        (All-of_Within _ shares (λ x w k l.
          let same =
            DistinctIds-eq (λ y. y.id) shares x s ids w (Within-find_first test shares s found)
              ((==_iff x.id s.id).0 k) in
          ground (arith, blind x, ap (λ y. is_ongoing y.state) same ∙ ongoing))) in
    omega (arith, h device, fewer)

answered-device_id :
    (accepted : Bool) (state : ScreenShareState) (limits : Limits) (now : ℕ)
    (s : ScreenShareSession)
    → (answered accepted state limits now s).device_id ≡ s.device_id
answered-device_id true state limits now s = refl
answered-device_id false state limits now s = refl

record_consent-IsSingle :
    (device id : ℕ) (accepted : Bool) (limits : Limits) (now : ℕ) (db : Db)
    → DistinctIds (λ s. s.id) db.screen_shares
    → IsSingle db.screen_shares
    → IsSingle (record_consent device id accepted limits now db).1.screen_shares
unfolding record_consent
record_consent-IsSingle device id accepted limits now db ids h =
    elim (Option-cases (find_first (is_share_of device id) db.screen_shares)) [
      | inl missing ↦ rw (missing, record_consent) h
      | inr (s, found) ↦ elim (Bool-cases (transition s.state (answer_event accepted)).applied) [
        | inl applied ↦
            rw (found, record_consent)
              (rw applied (
                write-IsSingle (is_share_of device id) s db.screen_shares _
                  (answered-device_id accepted _ limits now) ids found
                  (applied_ongoing s.state (answer_event accepted) applied) h))
        | inr refused ↦ rw (found, record_consent) (rw refused h)
      ]
    ]

end_share-IsSingle :
    (caller : Caller) (id : ℕ) (event : ScreenShareEvent) (now : ℕ) (db : Db)
    → DistinctIds (λ s. s.id) db.screen_shares
    → IsSingle db.screen_shares
    → IsSingle (end_share caller id event now db).1.screen_shares
unfolding end_share
end_share-IsSingle caller id event now db ids h =
    elim (Option-cases (find_first (is_share_for caller id) db.screen_shares)) [
      | inl missing ↦ rw (missing, end_share) h
      | inr (s, found) ↦ elim (Bool-cases (transition s.state event).applied) [
        | inl applied ↦
            rw (found, end_share)
              (rw applied (
                write-IsSingle (is_share_for caller id) s db.screen_shares _ (λ x. refl) ids found
                  (applied_ongoing s.state event applied) h))
        | inr refused ↦ elim (Bool-cases (is_some (transition s.state event).refusal)) [
          | inl r ↦ rw (found, end_share) (rw (refused, r) h)
          | inr r ↦ rw (found, end_share) (rw (refused, r) h)
        ]
      ]
    ]

-- The driver's answer leaves every phone with at most one session that is waiting or running, and
-- so does ending a session, by the phone or by an administrator.
pub record_consent_or_end_share-IsSingle :
    (device id : ℕ) (accepted : Bool) (limits : Limits) (caller : Caller) (event : ScreenShareEvent)
    (now : ℕ) (db : Db)
    → DistinctIds (λ s. s.id) db.screen_shares
    → IsSingle db.screen_shares
    → IsSingle (record_consent device id accepted limits now db).1.screen_shares
      × IsSingle (end_share caller id event now db).1.screen_shares
record_consent_or_end_share-IsSingle device id accepted limits caller event now db ids h = (
  record_consent-IsSingle device id accepted limits now db ids h,
  end_share-IsSingle caller id event now db ids h,
)
