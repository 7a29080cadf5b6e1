-- ===== src/Login/Unique.antt =====
-- One active session for each phone and for each user, across a login.
use mathlib.Core.Path.{subst}
use phone_control.Common.{
  ℕ, ◌≡◌, ◌≤◌, sym, refl, Bool, true, false, ◌++◌, Bool-cases, inl, inr, List, [], ◌∷◌, arith,
  count_where, count_where-append, ◌==◌, ==_iff,
}
use phone_control.Store.{Db, Session, Device, Badge, User, done}
use phone_control.Common.Ids.{Within}
use phone_control.BadgeHash.{Described}
use phone_control.Login.Granted.{IsAllowed, IsKnown, IsCleared, authenticate-Grants}
use phone_control.Commands.{is_active_on}
use phone_control.Sessions.Ends.{IsExclusive}
use phone_control.Login.{BarcodeAuth, granted, Site, is_active_of, replaced, close_previous}
use phone_control.Login.Steps.{authenticate, session_end}
use phone_control.Login.Sessions.{IsPersonal, opened, sessions_after}
use phone_control.Login.Outcome.{authenticate_outcome}

-- Ending a person's or a phone's sessions leaves no row active that was not.
count_where-close :
    (p : Session → Bool) (device user now : ℕ) (sessions : List Session)
    → ((s : Session) → p (replaced now s) ≡ false)
    → count_where p (close_previous device user now sessions) ≤ count_where p sessions
count_where-close p device user now [] shut = omega arith
count_where-close p device user now (s ∷ ss) shut =
    ground (arith, shut s, shut (replaced now s), count_where-close p device user now ss shut)

module _ (device user now : ℕ) where
  none_on_device :
      (sessions : List Session)
      → count_where (is_active_on device) (close_previous device user now sessions) ≡ 0
  none_on_device [] = refl
  none_on_device (s ∷ ss) = ground (arith, none_on_device ss)

  none_of_user :
      (sessions : List Session)
      → count_where (is_active_of user) (close_previous device user now sessions) ≡ 0
  none_of_user [] = refl
  none_of_user (s ∷ ss) = ground (arith, none_of_user ss)

module _ (device : Device) (badge : Badge) (now until : ℕ) (db : Db) where
  abbrev closed : List Session
  closed = close_previous device.id badge.user_id now db.sessions

  sessions_after-IsExclusive :
      (d : ℕ)
      → count_where (is_active_on d) db.sessions ≤ 1
      → count_where (is_active_on d) (sessions_after device badge now until db) ≤ 1
  sessions_after-IsExclusive d h =
      let new = opened device badge now until db in
      rw (count_where-append (is_active_on d) closed (new ∷ []))
        (elim (Bool-cases (device.id == d)) [
          | inl e ↦
              let same = (==_iff device.id d).0 e in
              rw (← same) (ground (arith, none_on_device device.id badge.user_id now db.sessions))
          | inr e ↦ ground (
            arith,
            count_where-close (is_active_on d) device.id badge.user_id now db.sessions
                (λ s. ground arith),
          )
        ])

  sessions_after-IsPersonal :
      (u : ℕ)
      → count_where (is_active_of u) db.sessions ≤ 1
      → count_where (is_active_of u) (sessions_after device badge now until db) ≤ 1
  sessions_after-IsPersonal u h =
      let new = opened device badge now until db in
      rw (count_where-append (is_active_of u) closed (new ∷ []))
        (elim (Bool-cases (badge.user_id == u)) [
          | inl e ↦
              let same = (==_iff badge.user_id u).0 e in
              rw (← same) (ground (arith, none_of_user device.id badge.user_id now db.sessions))
          | inr e ↦ ground (
            arith,
            count_where-close (is_active_of u) device.id badge.user_id now db.sessions
                (λ s. ground arith),
          )
        ])

-- A login, granted or refused, leaves at most one active session on each phone and at most one of
-- each user.
pub authenticate-IsExclusive :
    {ρ : Type 0} (site : Site ρ) (now : ℕ) (dto : BarcodeAuth) (id : ℕ) (db : Db) (s : ρ)
    → IsExclusive db
    → IsPersonal db
    → IsExclusive (authenticate site now dto id (db, s)).1
      × IsPersonal (authenticate site now dto id (db, s)).1
authenticate-IsExclusive site now dto id db s e p =
    elim (authenticate_outcome site now dto id db s) [
      | inl r ↦ (
        λ d. subst (λ ss. count_where (is_active_on d) ss ≤ 1) (sym r.0.0) (e d),
        λ u. subst (λ ss. count_where (is_active_of u) ss ≤ 1) (sym r.0.0) (p u),
      )
      | inr (device, found, badge, user, allowed, known, cleared, g) ↦
          let until = session_end site now device in
          (
            λ d.
                subst (λ ss. count_where (is_active_on d) ss ≤ 1) (sym g.1)
                  (sessions_after-IsExclusive device badge now until db d (e d)),
            λ u.
                subst (λ ss. count_where (is_active_of u) ss ≤ 1) (sym g.1)
                  (sessions_after-IsPersonal device badge now until db u (p u)),
          )
    ]

-- The one active session, of the phone and of the user, is this one.
abbrev pub IsOnlySession : (device user : ℕ) → Session → Db → Type 0
IsOnlySession device user new db =
    Within new db.sessions
    × (is_active_on device new ≡ true)
    × (is_active_of user new ≡ true)
    × (count_where (is_active_on device) db.sessions ≡ 1)
    × (count_where (is_active_of user) db.sessions ≡ 1)

module _ (device : Device) (badge : Badge) (now until : ℕ) (db : Db) where
  Within-last : (xs : List Session) (x : Session) → Within x (xs ++ x ∷ [])
  Within-last [] x = inl refl
  Within-last (y ∷ ys) x = inr (Within-last ys x)

  opened-IsOnlySession :
      (db' : Db)
      → db'.sessions ≡ sessions_after device badge now until db
      → IsOnlySession device.id badge.user_id (opened device badge now until db) db'
  opened-IsOnlySession db' same =
      let new = opened device badge now until db in
      let old = closed device badge now until db in
      let here : is_active_on device.id new ≡ true = ground arith in
      let theirs : is_active_of badge.user_id new ≡ true = ground arith in
      rw same (
        Within-last old new,
        here,
        theirs,
        ground (
          arith,
          here,
          count_where-append (is_active_on device.id) old (new ∷ []),
          none_on_device device.id badge.user_id now db.sessions,
        ),
        ground (
          arith,
          theirs,
          count_where-append (is_active_of badge.user_id) old (new ∷ []),
          none_of_user device.id badge.user_id now db.sessions,
        ),
      )

-- A login of a driver who qualifies is granted, whatever sessions the phone and the driver had: the
-- session that is answered is then the one active session of the phone, and the one of the driver.
-- And if each phone and each user had at most one active session before, they have so afterwards.
pub authenticate-IsOnlySession :
    {ρ : Type 0} (site : Site ρ) (now : ℕ) (dto : BarcodeAuth) (id : ℕ) (db : Db) (s : ρ)
    (device : Device) (found : Described) (badge : Badge) (user : User)
    → IsAllowed site now dto id db s found
    → IsKnown site now dto id db device found badge
    → IsCleared site now dto db device badge user
    → IsExclusive db
    → IsPersonal db
    → let result = authenticate site now dto id (db, s) in
      (new : Session) × (result.0 ≡ done (granted user.id new))
      × IsOnlySession device.id badge.user_id new result.1
      × IsExclusive result.1
      × IsPersonal result.1
authenticate-IsOnlySession site now dto id db s device found badge user allowed known cleared e p =
    let (answer, sessions, devices) =
      authenticate-Grants site now dto id db s device found badge user allowed known cleared in
    let until = session_end site now device in
    let kept = authenticate-IsExclusive site now dto id db s e p in
    (
      opened device badge now until db,
      answer,
      opened-IsOnlySession device badge now until db (authenticate site now dto id (db, s)).1
          sessions,
      kept.0,
      kept.1,
    )
