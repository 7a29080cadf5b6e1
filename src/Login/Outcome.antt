-- ===== src/Login/Outcome.antt =====
-- What a login does, whatever is scanned.
use phone_control.Common.{
  ℕ, ◌≡◌, ◌⊎◌, inl, inr, refl, ap, sym, ◌∙◌, true, false, ◌==◌, ==_iff, none, some, arith,
  Bool-cases, Option-cases, find_first,
}
use phone_control.Store.{Device, User, Badge, Db, Reply}
use phone_control.BadgeHash.{Described}
use phone_control.Login.{BarcodeAuth, Response, Site, has_hash, is_usable}
use phone_control.Login.Steps.{
  usable_device, check_device, check_badge_quota, check_barcode, check_device_quota, authenticate,
}
use phone_control.Login.Runs.{
  check_device_denied, check_badge_quota_denied, check_barcode_denied, check_device_quota_denied,
  check_lockout_denied, authenticate_foreign, badge_quota, device_quota, lockout, check_device_run,
  check_badge_quota_run, check_barcode_run, check_device_quota_run, check_lockout_run,
  authenticate_run,
}
use phone_control.Login.Refusals.{deny-Refuses}
use phone_control.Login.Granted.{IsCleared, IsKnown, IsAllowed, after_lockout}
use phone_control.Login.Sessions.{Grants}
use phone_control.Login.Badges.{absent, IsRefused, Cleared, find_badge_outcome}

module _ {ρ : Type 0} (site : Site ρ) (now : ℕ) (dto : BarcodeAuth) (id : ℕ) (db : Db) where
  -- The phone is in use, and the badge of its company cleared.
  abbrev Admitted : ρ → Described → Reply Response × Db × ρ → Type 0
  Admitted s found result =
      (device : Device) × (find_first (λ d. d.id == id) db.devices ≡ some device)
      × (is_usable device ≡ true)
      × Cleared site now dto db s device found result

  usable_inversion :
      (device : Device)
      → usable_device site now id db ≡ some device
      → (find_first (λ d. d.id == id) db.devices ≡ some device) × (is_usable device ≡ true)
  usable_inversion device e = elim (Option-cases (find_first (λ d. d.id == id) db.devices)) [
    | inl missing ↦ cc (rw (missing, usable_device) at e)
    | inr (d, known) ↦ elim (Bool-cases (is_usable d)) [
      | inl ok ↦
          let opened = rw (known, usable_device) at e in
          let chosen : some d ≡ some device = rw ok at opened in
          let same : d ≡ device = cc chosen in (known ∙ ap some same, ap is_usable (sym same) ∙ ok)
      | inr bad ↦
          let opened = rw (known, usable_device) at e in
          let chosen : none ≡ some device = rw bad at opened in cc chosen
    ]
  ]

  check_device_outcome :
      (s : ρ) (found : Described)
      → let result = check_device site now id found dto (db, s) in
        IsRefused site now dto db result ⊎ Admitted s found result
  check_device_outcome s found = elim (Option-cases (usable_device site now id db)) [
    | inl missing ↦
        rw (check_device_denied site now dto db s id found missing)
          (inl (deny-Refuses site now _ _ id dto (some found) none db s))
    | inr (device, here) ↦
        let (known, usable) = usable_inversion device here in
        rw (check_device_run site now dto db s id found device here)
          (elim (find_badge_outcome site now dto db s device found) [
            | inl r ↦ inl r
            | inr g ↦ inr (device, known, usable, g)
          ])
  ]

  -- All that a granted login has met.
  abbrev pub Qualified : ρ → Reply Response × Db × ρ → Type 0
  Qualified s result =
      (device : Device) × (found : Described) × (badge : Badge) × (user : User) × IsAllowed site now
        dto id db s found
      × IsKnown site now dto id db device found badge
      × IsCleared site now dto db device badge user
      × Grants site now device badge user db result

  IsKnown-of :
      (device : Device) (found : Described) (badge : Badge)
      → dto.device_id ≡ id
      → find_first (λ d. d.id == id) db.devices ≡ some device
      → is_usable device ≡ true
      → site.describe dto.barcode ≡ some found
      → find_first (has_hash device.company_id found.hash) db.badges ≡ some badge
      → IsKnown site now dto id db device found badge
  IsKnown-of device found badge own known usable readable issued = record {
    own = own;
    known = known;
    enrolled = ground arith;
    present = absent device.deleted_at (ground arith);
    unrevoked = absent device.revoked_at (ground arith);
    readable = readable;
    issued = issued;
  }

  check_badge_quota_outcome :
      (s : ρ) (found : Described)
      → let result = check_badge_quota site now id found dto (db, s) in
        IsRefused site now dto db result
        ⊎ (((badge_quota site now dto db s id found).0.allowed ≡ true) × Admitted s found result)
  check_badge_quota_outcome s found =
      let quota = badge_quota site now dto db s id found in
      elim (Bool-cases quota.0.allowed) [
        | inl ok ↦
            rw (check_badge_quota_run site now dto db s id found ok)
              (elim (check_device_outcome quota.1 found) [ inl r ↦ inl r | inr g ↦ inr (ok, g) ])
        | inr over ↦
            rw (check_badge_quota_denied site now dto db s id found over)
              (inl (deny-Refuses site now _ _ id dto (some found) _ db quota.1))
      ]

  check_barcode_outcome :
      (s : ρ)
      → let result = check_barcode site now id dto (db, s) in
        IsRefused site now dto db result
        ⊎ ((found : Described) × (site.describe dto.barcode ≡ some found)
            × ((badge_quota site now dto db s id found).0.allowed ≡ true)
            × Admitted s found result)
  check_barcode_outcome s = elim (Option-cases (site.describe dto.barcode)) [
    | inl unreadable ↦
        rw (check_barcode_denied site now dto db s id unreadable)
          (inl (deny-Refuses site now _ _ id dto none none db s))
    | inr (found, readable) ↦
        rw (check_barcode_run site now dto db s id found readable)
          (elim (check_badge_quota_outcome s found) [
            | inl r ↦ inl r
            | inr g ↦ inr (found, readable, g.0, g.1)
          ])
  ]

  after_lock :
      (s : ρ)
      → dto.device_id ≡ id
      → (lockout site now dto db s id).0 ≡ false
      → let result = check_device_quota site now id dto (db, after_lockout site now dto id db s) in
        IsRefused site now dto db result ⊎ Qualified s result
  after_lock s own free =
      let t = after_lockout site now dto id db s in
      let quota = device_quota site now dto db t id in
      elim (Bool-cases quota.0.allowed) [
        | inl ok ↦
            rw (check_device_quota_run site now dto db t id ok)
              (elim (check_barcode_outcome quota.1) [
                | inl r ↦ inl r
                | inr
                      (
                        found,
                        readable,
                        allowed,
                        (device, known, usable, (badge, user, issued, c, g)),
                      ) ↦
                    inr (
                      device,
                      found,
                      badge,
                      user,
                      record { unlocked = free; device_allowed = ok; badge_allowed = allowed },
                      IsKnown-of device found badge own known usable readable issued,
                      c,
                      g,
                    )
              ])
        | inr over ↦
            rw (check_device_quota_denied site now dto db t id over)
              (inl (deny-Refuses site now _ _ id dto none _ db quota.1))
      ]

  -- Every login is either refused, and then neither a session nor a phone has changed, or granted:
  -- the phone is the caller's, enrolled and not revoked, it is not locked out and neither quota is
  -- used up, the first badge of its company with the hash of the barcode is active, its user is
  -- active and of the same company, and the phone is assigned to them where the company requires
  -- it; then the user's and the phone's active sessions are ended, the new session is the last row,
  -- and the phone is active.
  pub authenticate_outcome :
      (s : ρ)
      → let result = authenticate site now dto id (db, s) in
        IsRefused site now dto db result ⊎ Qualified s result
  authenticate_outcome s = elim (Bool-cases (dto.device_id == id)) [
    | inr foreign ↦
        rw (authenticate_foreign site now dto db s id foreign)
          (inl ((refl, refl), λ user session h. cc h))
    | inl same ↦
        let own = (==_iff dto.device_id id).0 same in
        let lock = lockout site now dto db s id in
        rw (authenticate_run site now dto db s id own) (elim (Bool-cases lock.0) [
          | inl locked ↦
              rw (check_lockout_denied site now dto db s id locked)
                (inl (deny-Refuses site now _ _ id dto none _ db lock.1))
          | inr free ↦ rw (check_lockout_run site now dto db s id free) (after_lock s own free)
        ])
  ]
