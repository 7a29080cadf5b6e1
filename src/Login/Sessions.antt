-- ===== src/Login/Sessions.antt =====
-- The session that a login opens, and the ones that it ends.
use phone_control.Common.{
  ℕ, suc, ◌≡◌, ◌≤◌, refl, false, List, [], ◌∷◌, ◌++◌, arith, any, update_where, count_where, ◌==◌,
  some,
}
use phone_control.Store.Enums.{DeviceState}
use phone_control.Store.{Device, Session, User, Badge, Db, Reply, done}
use phone_control.BadgeHash.{Described}
use phone_control.Login.Effects.{◌>>=◌, answer, on_db, on_redis}
use phone_control.Login.{
  BarcodeAuth, Response, granted, Site, record_scan, record_login_event, is_active_of, new_session,
  close_previous, occupies, create_session, activate_device, open_session,
}
use phone_control.Login.Steps.{session_end, succeed}

-- What the database guarantees by its index sessions_active_per_user_uidx.
abbrev pub IsPersonal : Db → Type 0
IsPersonal db = (user : ℕ) → count_where (is_active_of user) db.sessions ≤ 1

-- After the two updates nothing stands in the way of the new session.
vacant :
    (new : Session) (now : ℕ) (sessions : List Session)
    → any (occupies new) (close_previous new.device_id new.user_id now sessions) ≡ false
vacant new now [] = refl
vacant new now (s ∷ ss) = ground (arith, vacant new now ss)

module _ (device : Device) (badge : Badge) (now expires_at : ℕ) (db : Db) where
  abbrev pub opened : Session
  opened = new_session (db.ids db.issued) device badge now expires_at

  abbrev pub sessions_after : List Session
  sessions_after = close_previous device.id badge.user_id now db.sessions ++ opened ∷ []

  abbrev db_after : Db
  db_after =
      activate_device device.id now
        (record db { sessions = sessions_after; issued = suc db.issued })

  open_session_run : open_session device badge now expires_at db ≡ (done opened, db_after)
  unfolding open_session create_session
  open_session_run = rw (vacant opened now db.sessions, open_session) refl

module _ {ρ : Type 0} (site : Site ρ) (now : ℕ) where
  -- A login that is granted: the answer, the sessions and the phones afterwards.
  abbrev pub Grants : Device → Badge → User → Db → Reply Response × Db × ρ → Type 0
  Grants device badge user db result =
      let until = session_end site now device in
      (result.0 ≡ done (granted user.id (opened device badge now until db)))
      × (result.1.sessions ≡ sessions_after device badge now until db)
      × (result.1.devices
          ≡ update_where (λ d. d.id == device.id)
              (λ d. record d { state = DeviceState.active; last_seen_at = some now }) db.devices)

  pub succeed-Grants :
      (device : Device) (found : Described) (badge : Badge) (user : User) (dto : BarcodeAuth)
      (db : Db) (s : ρ)
      → Grants device badge user db (succeed site now device found badge user dto (db, s))
  unfolding succeed ◌>>=◌ answer on_db on_redis record_scan record_login_event
  succeed-Grants device found badge user dto db s =
      rw (open_session_run device badge now (session_end site now device) db, succeed)
        (refl, refl, refl)
