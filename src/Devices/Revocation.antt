-- ===== src/Devices/Revocation.antt =====
-- A phone that was revoked: its tokens, its calls and the logins on it.
use phone_control.Common.{
  ℕ, ◌≡◌, ◌≢◌, ◌⊎◌, ◌∙◌, refl, sym, ap, inl, inr, true, List, [], ◌∷◌, Option, some, ◌==◌, ==_iff,
  ◌&&◌, find_first, find_first-satisfies, update_where, is_some, All, Bool-cases, Option-cases,
  if◌then◌else◌,
}
use mathlib.Core.Path.{subst}
use phone_control.Common.Finds.{All-found}
use phone_control.Common.Ids.{find_first-update_where}
use phone_control.Rules.Clock.{Text}
use phone_control.Store.Enums.{EnrollmentStatus}
use phone_control.Store.{Device, DeviceCredential, Session, Db, done}
use phone_control.Devices.Tokens.{
  Issuer, has_token, is_spent, is_live_of, revoke_credential, revoke_credentials_of, DeviceTokens,
  refresh_tokens,
}
use phone_control.Devices.Runs.{refresh_amid_inversion}
use phone_control.Devices.Enrollment.{revoked, set_revoked, is_visible, revoke_device}
use phone_control.Login.{BarcodeAuth, Site, granted}
use phone_control.Login.Steps.{authenticate}
use phone_control.Login.Outcome.{authenticate_outcome}
use phone_control.Access.{
  Setting, Route, Call, AuthenticatedDevice, passed, device_route, kind_or_admin, can_activate,
  device_identity,
}
use phone_control.Access.Admitted.{can_activate_device}

module _ (company : Option ℕ) (device now : ℕ) (db : Db) where
  abbrev after : Db
  after = (revoke_device company device now db).1

  abbrev Succeeds : Type 0
  Succeeds = (revoke_device company device now db).0 ≡ done tt

  revoke_device_run :
      Succeeds
      → revoke_device company device now db
        ≡ (done tt, revoke_credentials_of device now (set_revoked device now db))
  unfolding revoke_device
  revoke_device_run e =
      elim (Option-cases (find_first (λ d. d.id == device && is_visible company d) db.devices)) [
        | inl missing ↦ absurd (cc (rw (revoke_device, missing) at e))
        | inr (d, found) ↦ rw (found, revoke_device) refl
      ]

  written :
      Succeeds
      → (after.devices ≡ update_where (λ d. d.id == device) (revoked now) db.devices)
        × (after.credentials
            ≡ update_where (is_live_of device) (revoke_credential now) db.credentials)
  written e =
      let run = revoke_device_run e in (ap (λ r. r.1.devices) run, ap (λ r. r.1.credentials) run)

  -- A phone that is not this one, or is revoked.
  abbrev IsElsewhere : Device → Type 0
  IsElsewhere d = (d.id ≢ device) ⊎ (d.enrollment_status ≡ EnrollmentStatus.revoked)

  elsewhere :
      (ds : List Device) → All IsElsewhere (update_where (λ d. d.id == device) (revoked now) ds)
  elsewhere [] = tt
  elsewhere (d ∷ ds) = (
    elim (Bool-cases (d.id == device)) [
      | inl here ↦ rw here (inr refl)
      | inr other ↦ rw other (inl (λ e. cc (other, (==_iff d.id device).1 e)))
    ],
    elsewhere ds,
  )

  found_elsewhere :
      (id : ℕ) (d : Device)
      → Succeeds
      → find_first (λ d. d.id == id) after.devices ≡ some d
      → d.enrollment_status ≡ EnrollmentStatus.enrolled
      → id ≢ device
  found_elsewhere id d e found enrolled same =
      let here =
        All-found (λ d. d.id == id) IsElsewhere after.devices d
          (rw (written e).0 (elsewhere db.devices)) found in
      elim here.0 [
        | inl other ↦ other ((==_iff d.id id).0 here.1 ∙ same)
        | inr gone ↦ cc (gone, enrolled)
      ]

  revoked_spent :
      (c : DeviceCredential)
      → c.device_id ≡ device
      → is_spent (if is_live_of device c then revoke_credential now c else c) ≡ true
  revoked_spent c own =
      let here : (c.device_id == device) ≡ true = (==_iff c.device_id device).1 own in
      elim (Bool-cases (is_some c.used_at)) [
        | inl used ↦ elim (Option-cases c.revoked_at) [
          | inl live ↦ rw (here, live, used) refl
          | inr (t, gone) ↦ rw (here, gone, used) refl
        ]
        | inr unused ↦ elim (Option-cases c.revoked_at) [
          | inl live ↦ rw (here, live, unused) refl
          | inr (t, gone) ↦ rw (here, gone, unused) refl
        ]
      ]

  spent_after :
      (issuer : Issuer) (token : Text) (c : DeviceCredential)
      → Succeeds
      → find_first (has_token (issuer.hash_token token)) db.credentials ≡ some c
      → c.device_id ≡ device
      → (x : DeviceCredential) × (find_first (has_token (issuer.hash_token token)) after.credentials
          ≡ some x)
        × (is_spent x ≡ true)
  spent_after issuer token c e found own =
      let p = has_token (issuer.hash_token token) in
      let q = is_live_of device in
      let f = revoke_credential now in
      let here = find_first-update_where p q f db.credentials c (λ x. refl) found in
      (if q c then f c else c, rw (written e).1 here, revoked_spent c own)

  -- After a phone was revoked, no login on it is granted, whatever is scanned, and a token that was
  -- one of its tokens before gives no new ones.
  pub revoke_device_shuts :
      {ρ : Type 0} (site : Site ρ) (dto : BarcodeAuth) (s : ρ) (issuer : Issuer)
      (token fresh : Text) (later : ℕ) (c : DeviceCredential)
      → Succeeds
      → find_first (has_token (issuer.hash_token token)) db.credentials ≡ some c
      → c.device_id ≡ device
      → ((user : ℕ) (session : Session)
          → (authenticate site later dto device (after, s)).0 ≢ done (granted user session))
        × ((t : DeviceTokens) → (refresh_tokens issuer token fresh later after).0 ≢ done t)
  unfolding refresh_tokens
  revoke_device_shuts site dto s issuer token fresh later c e found own = (
    λ user session g. elim (authenticate_outcome site later dto device after s) [
      | inl refused ↦ refused.1 user session g
      | inr (d, f, badge, u, allowed, known, cleared, g') ↦
          found_elsewhere device d e known.known known.enrolled refl
    ],
    λ t g.
        let (x, here, spent) = spent_after issuer token c e found own in
        let (y, d, r) = refresh_amid_inversion issuer (λ d. d) token fresh later after t g in
        let same : x ≡ y = cc (here, r.0.0) in cc (subst (λ z. is_spent z ≡ true) same spent, r.1),
  )

  -- After a phone was revoked, the guard lets no call of it pass: whoever passes on a route for
  -- phones, when the guard reads that database, is another phone.
  pub revoke_device_expels :
      (setting : Setting) (route : Route) (call next : Call) (caller : AuthenticatedDevice)
      → Succeeds
      → setting.devices ≡ after.devices
      → kind_or_admin setting route.auth_kind ≡ device_route
      → can_activate setting route call ≡ (passed, next)
      → next.device ≡ some caller
      → caller.id ≢ device
  revoke_device_expels setting route call next caller e reads k passes named =
      let (token, p, d, ctx, b, ok, typ, row, present, enrolled, have, same) =
        (can_activate_device setting route call next k).0 passes in
      let it : some (device_identity setting d) ≡ some caller =
        ap (λ c. c.device) (sym same) ∙ named in
      let id : d.id ≡ caller.id = cc it in
      let sub : d.id ≡ p.sub =
        (==_iff d.id p.sub).0 (find_first-satisfies (λ x. x.id == p.sub) setting.devices d row) in
      let other =
        found_elsewhere p.sub d e
          (subst (λ ds. find_first (λ x. x.id == p.sub) ds ≡ some d) reads row) enrolled in
      λ own. other (sym sub ∙ id ∙ own)
