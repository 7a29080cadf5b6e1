-- ===== src/Login/Granted.antt =====
-- Who is granted a session.
use phone_control.Common.{
  ℕ, ◌≡◌, ◌⊎◌, refl, true, false, not, ◌&&◌, ◌==◌, none, some, arith, find_first, any,
}
use phone_control.Store.Enums.{BadgeStatus, UserStatus, EnrollmentStatus, is_active_badge}
use phone_control.Store.{Device, User, Badge, Db}
use phone_control.BadgeHash.{Described}
use phone_control.Login.{BarcodeAuth, Site, has_hash, assigns, is_usable}
use phone_control.Login.Steps.{needs_assignment, usable_device, authenticate}
use phone_control.Login.Runs.{
  is_assigned, is_same_company, is_live_user, badge_quota, device_quota, lockout,
  check_assignment_run, check_company_run, check_user_run, check_badge_run, find_badge_run,
  check_device_run, check_badge_quota_run, check_barcode_run, check_device_quota_run,
  check_lockout_run, authenticate_run,
}
use phone_control.Login.Sessions.{Grants, succeed-Grants}

module _ {ρ : Type 0} (site : Site ρ) (now : ℕ) (dto : BarcodeAuth) where
  -- The badge and its user, on this phone.
  pub record IsCleared (db : Db) (device : Device) (badge : Badge) (user : User) : Type 0 where
    pub badge_active : badge.status ≡ BadgeStatus.active
    pub holder : find_first (λ u. u.id == badge.user_id) db.users ≡ some user
    pub user_active : user.status ≡ UserStatus.active
    pub user_present : user.deleted_at ≡ none
    pub badge_company : badge.company_id ≡ device.company_id
    pub user_company : user.company_id ≡ device.company_id
    pub assigned :
        (needs_assignment site now device ≡ false)
        ⊎ (any (assigns device.company_id badge.user_id device.id now) db.assignments ≡ true)

  -- The phone, and a badge of its company with the hash of the barcode.
  pub record IsKnown (id : ℕ) (db : Db) (device : Device) (found : Described) (badge : Badge)
      : Type 0 where
    pub own : dto.device_id ≡ id
    pub known : find_first (λ d. d.id == id) db.devices ≡ some device
    pub enrolled : device.enrollment_status ≡ EnrollmentStatus.enrolled
    pub present : device.deleted_at ≡ none
    pub unrevoked : device.revoked_at ≡ none
    pub readable : site.describe dto.barcode ≡ some found
    pub issued : find_first (has_hash device.company_id found.hash) db.badges ≡ some badge

  -- Redis, from the state `s` on: neither a lock nor a quota that is used up.
  abbrev pub after_lockout : ℕ → Db → ρ → ρ
  after_lockout id db s = (lockout site now dto db s id).1

  abbrev pub after_quota : ℕ → Db → ρ → ρ
  after_quota id db s = (device_quota site now dto db (after_lockout id db s) id).1

  pub record IsAllowed (id : ℕ) (db : Db) (s : ρ) (found : Described) : Type 0 where
    pub unlocked : (lockout site now dto db s id).0 ≡ false
    pub device_allowed : (device_quota site now dto db (after_lockout id db s) id).0.allowed ≡ true
    pub badge_allowed :
        (badge_quota site now dto db (after_quota id db s) id found).0.allowed ≡ true

  usable_of_known :
      (id : ℕ) (db : Db) (device : Device) (found : Described) (badge : Badge)
      → IsKnown id db device found badge
      → usable_device site now id db ≡ some device
  usable_of_known id db device found badge k =
      let usable : is_usable device ≡ true = rw (k.present, k.enrolled, k.unrevoked) refl in
      rw (k.known, usable_device) (rw usable refl)

  -- A driver who qualifies is granted a session.
  pub authenticate-Grants :
      (id : ℕ) (db : Db) (s : ρ) (device : Device) (found : Described) (badge : Badge) (user : User)
      → IsAllowed id db s found
      → IsKnown id db device found badge
      → IsCleared db device badge user
      → Grants site now device badge user db (authenticate site now dto id (db, s))
  authenticate-Grants id db s device found badge user allowed k c =
      let s1 = after_lockout id db s in
      let s2 = after_quota id db s in
      let s3 = (badge_quota site now dto db s2 id found).1 in
      let live : is_live_user site now dto db s device found badge user ≡ true =
        rw (c.user_active, c.user_present) refl in
      let active : is_active_badge badge.status ≡ true = rw c.badge_active refl in
      let same : is_same_company site now dto db s device found badge user ≡ true =
        ground (arith, c.badge_company, c.user_company) in
      let free : needs_assignment site now device
            && not (is_assigned site now dto db s device found badge user)
          ≡ false =
        ground (arith, c.assigned) in
      rw
        (
          authenticate_run site now dto db s id k.own,
          check_lockout_run site now dto db s id allowed.unlocked,
          check_device_quota_run site now dto db s1 id allowed.device_allowed,
          check_barcode_run site now dto db s2 id found k.readable,
          check_badge_quota_run site now dto db s2 id found allowed.badge_allowed,
          check_device_run site now dto db s3 id found device
              (usable_of_known id db device found badge k),
          find_badge_run site now dto db s3 device found badge k.issued,
          check_badge_run site now dto db s3 device found badge user c.holder active,
          check_user_run site now dto db s3 device found badge user live,
          check_company_run site now dto db s3 device found badge user same,
          check_assignment_run site now dto db s3 device found badge user false free,
        )
        (succeed-Grants site now device found badge user dto db s3)
