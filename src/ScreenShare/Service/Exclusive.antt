-- ===== src/ScreenShare/Service/Exclusive.antt =====
-- At most one sharing session of a phone is waiting or running.
use phone_control.Common.{Option}
use phone_control.Common.{
  ◌⊎◌, ℕ, ◌≤◌, ◌≡◌, ◌∙◌, ap, sym, refl, true, false, List, [], ◌∷◌, ◌++◌, none, some, arith,
  Option-cases, Bool-cases, inl, inr, ◌==◌, ==_iff, find_first, find_first-none,
  find_first-satisfies, count_where, ltb, count_where-append,
}
use phone_control.Common.Sort.{sort_by, count_where-sort_by}
use phone_control.Common.Ids.{All-of_Within, count_where-update_le, count_where-update_sorted}
use phone_control.Store.Enums.{ScreenShareState, is_ongoing}
use phone_control.Store.{continue-pure, continue-done, ScreenShareSession, Db, done}
use phone_control.Commands.{EnqueueParams, enqueue, create_command, find_keyed}
use phone_control.ScreenShare.Rules.{is_terminal}
use phone_control.ScreenShare.Service.{
  user_of, latest_active, is_live_device, Limits, Request, is_ongoing_on, newer, latest_ongoing,
  refresh, find_ongoing, new_share, create_share, request, is_live_device, closed_as,
}

abbrev pub ongoing_count : ℕ → List ScreenShareSession → ℕ
ongoing_count device = count_where (is_ongoing_on device)

abbrev pub IsSingle : List ScreenShareSession → Type 0
IsSingle shares = (device : ℕ) → ongoing_count device shares ≤ 1

-- The search for a living session: it leaves at most one, and none if it finds none.
refresh-IsSingle :
    (s : ScreenShareSession) (now : ℕ) (db : Db)
    → IsSingle db.screen_shares
    → IsSingle (refresh s now db).1.screen_shares
unfolding refresh
refresh-IsSingle s now db h device = elim (Bool-cases (is_terminal s.state)) [
  | inl over ↦ rw (over, refresh) (h device)
  | inr alive ↦ elim (Bool-cases (ltb now s.expires_at)) [
    | inl early ↦ rw (alive, refresh) (rw (early, refresh) (h device))
    | inr late ↦
        let fewer =
          count_where-update_le (is_ongoing_on device) (λ x. x.id == s.id)
            (closed_as ScreenShareState.expired now) db.screen_shares
            (All-of_Within _ db.screen_shares (λ x w k l. absurd (ground arith))) in
        rw (alive, refresh) (rw (late, refresh) (omega (arith, h device, fewer)))
  ]
]

ongoing_alive :
    (device : ℕ) (s : ScreenShareSession)
    → is_ongoing_on device s ≡ true
    → is_terminal s.state ≡ false
ongoing_alive device s h = ground arith

refresh-none :
    (device : ℕ) (s : ScreenShareSession) (now : ℕ) (db : Db)
    → IsSingle db.screen_shares
    → latest_ongoing device db.screen_shares ≡ some s
    → (refresh s now db).0 ≡ done none
    → ongoing_count device (refresh s now db).1.screen_shares ≡ 0
unfolding refresh
refresh-none device s now db h found e =
    let held =
      find_first-satisfies (is_ongoing_on device) (sort_by newer db.screen_shares) s found in
    let alive = ongoing_alive device s held in
    elim (Bool-cases (ltb now s.expires_at)) [
      | inl early ↦ absurd (cc (rw (refresh, alive, early) at e))
      | inr late ↦
          let fewer =
            count_where-update_sorted newer (is_ongoing_on device) (λ x. x.id == s.id)
              (closed_as ScreenShareState.expired now) db.screen_shares s (λ x. ground arith) found
              ((==_iff s.id s.id).1 refl) in
          rw (refresh, alive, late) (omega (arith, h device, fewer))
    ]

IsSingle-append :
    (device : ℕ) (s : ScreenShareSession) (shares : List ScreenShareSession)
    → s.device_id ≡ device
    → is_ongoing s.state ≡ true
    → ongoing_count device shares ≡ 0
    → IsSingle shares
    → IsSingle (shares ++ s ∷ [])
IsSingle-append device s shares e ongoing none_left h other = ground (
  arith,
  count_where-append (is_ongoing_on other) shares (s ∷ []),
  h other,
  ==_iff s.device_id other,
)

-- The queue of commands does not touch the sessions.
enqueue-screen_shares :
    (params : EnqueueParams) (now : ℕ) (db : Db)
    → (enqueue params now db).1.screen_shares ≡ db.screen_shares
unfolding enqueue create_command
enqueue-screen_shares params now db =
    elim (Option-cases (find_keyed params.device_id params.idempotency_key db.commands)) [
      | inl none_known ↦ rw (enqueue, none_known) (rw (create_command, none_known) refl)
      | inr (c, known) ↦ rw (enqueue, known) refl
    ]

create_share-screen_shares :
    (tenant : Option ℕ) (r : Request) (limits : Limits) (now : ℕ) (db : Db)
    → (create_share tenant r limits now db).1.screen_shares
      ≡ db.screen_shares
        ++ new_share r limits (user_of (latest_active tenant r.device_id db)) (db.ids db.issued) now
          ∷ []
unfolding create_share
create_share-screen_shares tenant r limits now db =
    ap (λ d. d.screen_shares) (continue-pure _ _) ∙ enqueue-screen_shares _ now _

create_share-IsSingle :
    (tenant : Option ℕ) (r : Request) (limits : Limits) (now : ℕ) (db : Db)
    → ongoing_count r.device_id db.screen_shares ≡ 0
    → IsSingle db.screen_shares
    → IsSingle (create_share tenant r limits now db).1.screen_shares
create_share-IsSingle tenant r limits now db free h =
    rw (create_share-screen_shares tenant r limits now db)
      (IsSingle-append r.device_id _ db.screen_shares refl refl free h)

refresh_answers :
    (s : ScreenShareSession) (now : ℕ) (db : Db)
    → ((refresh s now db).0 ≡ done none)
      ⊎ ((t : ScreenShareSession) × ((refresh s now db).0 ≡ done (some t)))
unfolding refresh
refresh_answers s now db = elim (Bool-cases (is_terminal s.state)) [
  | inl over ↦ inl (rw (refresh, over) refl)
  | inr alive ↦ elim (Bool-cases (ltb now s.expires_at)) [
    | inl early ↦ inr (s, rw (refresh, alive, early) refl)
    | inr late ↦ inl (rw (refresh, alive, late) refl)
  ]
]

-- What the search answers, and the sessions that it leaves.
find_ongoing_cases :
    (device now : ℕ) (db : Db)
    → IsSingle db.screen_shares
    → IsSingle (find_ongoing device now db).1.screen_shares
      × (((find_ongoing device now db).0 ≡ done none)
            × (ongoing_count device (find_ongoing device now db).1.screen_shares ≡ 0)
          ⊎ ((s : ScreenShareSession) × ((find_ongoing device now db).0 ≡ done (some s))))
unfolding find_ongoing refresh
find_ongoing_cases device now db h = elim (Option-cases (latest_ongoing device db.screen_shares)) [
  | inl missing ↦
      let none_left =
        find_first-none (is_ongoing_on device) (sort_by newer db.screen_shares) missing in
      rw (find_ongoing, missing)
        (
          h,
          inl (
            refl,
            sym (count_where-sort_by newer (is_ongoing_on device) db.screen_shares) ∙ none_left,
          ),
        )
  | inr (s, found) ↦
      rw (find_ongoing, found)
        (
          refresh-IsSingle s now db h,
          elim (refresh_answers s now db) [
            | inl e ↦ inl (e, refresh-none device s now db h found e)
            | inr (t, e) ↦ inr (t, e)
          ],
        )
]

-- A phone has at most one session that is waiting or running, whatever is asked for.
pub request-IsSingle :
    (tenant : Option ℕ) (r : Request) (limits : Limits) (now : ℕ) (db : Db)
    → IsSingle db.screen_shares
    → IsSingle (request tenant r limits now db).1.screen_shares
unfolding request find_ongoing
request-IsSingle tenant r limits now db h =
    elim (Option-cases (find_first (is_live_device tenant r.device_id) db.devices)) [
      | inl missing ↦ rw (request, missing) h
      | inr (d, found) ↦
          let search = find_ongoing_cases r.device_id now db h in
          elim search.1 [
            | inl (e, free) ↦
                rw (request, found)
                  (rw (continue-done (find_ongoing r.device_id now db) none _ e)
                    (create_share-IsSingle tenant r limits now _ free search.0))
            | inr (t, e) ↦
                rw (request, found)
                  (rw (continue-done (find_ongoing r.device_id now db) (some t) _ e) search.0)
          ]
    ]
