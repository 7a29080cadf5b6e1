-- ===== src/Login/Runs.antt =====
-- Where each check of a login leads, by the answer of its test.
use phone_control.Common.{
  ℕ, ◌≡◌, refl, Bool, true, false, none, some, not, is_some, ◌&&◌, ◌==◌, any, find_first,
  if◌then◌else◌, ==_iff, ◌*◌,
}
use phone_control.Store.Enums.{BarcodeScanResult, is_active_user, is_active_badge}
use phone_control.Store.{Device, User, Badge, Db, Error, raised}
use phone_control.Limiter.{
  RateLimitDecision, barcode, barcode_device, barcode_badge, consume, is_locked_out,
}
use phone_control.BadgeHash.{Described}
use phone_control.Login.Effects.{◌>>=◌, on_db, on_redis}
use phone_control.Login.{
  BarcodeAuth, rate_limited, badge_denied, device_unavailable, Site, has_hash, assigns,
}
use phone_control.Login.Steps.{
  deny, needs_assignment, succeed, refuse_unassigned, check_assignment, check_company, check_user,
  check_badge, find_badge, usable_device, check_device, check_badge_quota, check_barcode,
  check_device_quota, check_lockout, authenticate,
}

module _ {ρ : Type 0} (site : Site ρ) (now : ℕ) (dto : BarcodeAuth) (db : Db) (s : ρ) where
  module _ (device : Device) (found : Described) (badge : Badge) (user : User) where
    abbrev pub is_assigned : Bool
    is_assigned = any (assigns device.company_id badge.user_id device.id now) db.assignments

    pub check_assignment_run :
        (b : Bool)
        → needs_assignment site now device && not is_assigned ≡ b
        → check_assignment site now device found badge user dto (db, s)
          ≡ (if b
                then refuse_unassigned site now device found badge dto
                else succeed site now device found badge user dto)
              (db, s)
    unfolding check_assignment ◌>>=◌ on_db
    check_assignment_run b e = rw (← e) refl

    abbrev pub is_same_company : Bool
    is_same_company = badge.company_id == device.company_id && user.company_id == device.company_id

    pub check_company_run :
        is_same_company ≡ true
        → check_company site now device found badge user dto (db, s)
          ≡ check_assignment site now device found badge user dto (db, s)
    unfolding check_company
    check_company_run e = rw (e, check_company) refl

    abbrev pub is_live_user : Bool
    is_live_user = is_active_user user.status && not (is_some user.deleted_at)

    pub check_user_run :
        is_live_user ≡ true
        → check_user site now device found badge user dto (db, s)
          ≡ check_company site now device found badge user dto (db, s)
    unfolding check_user
    check_user_run e = rw (e, check_user) refl

    pub check_badge_run :
        find_first (λ u. u.id == badge.user_id) db.users ≡ some user
        → is_active_badge badge.status ≡ true
        → check_badge site now device found badge dto (db, s)
          ≡ check_user site now device found badge user dto (db, s)
    unfolding check_badge ◌>>=◌ on_db
    check_badge_run e h = rw (e, check_badge) (rw h refl)

  pub find_badge_run :
      (device : Device) (found : Described) (badge : Badge)
      → find_first (has_hash device.company_id found.hash) db.badges ≡ some badge
      → find_badge site now device found dto (db, s)
        ≡ check_badge site now device found badge dto (db, s)
  unfolding find_badge ◌>>=◌ on_db
  find_badge_run device found badge e = rw (e, find_badge) refl

  pub check_device_run :
      (id : ℕ) (found : Described) (device : Device)
      → usable_device site now id db ≡ some device
      → check_device site now id found dto (db, s) ≡ find_badge site now device found dto (db, s)
  unfolding check_device ◌>>=◌ on_db
  check_device_run id found device e = rw (e, check_device) refl

  module _ (id : ℕ) where
    abbrev pub badge_quota : Described → RateLimitDecision × ρ
    badge_quota found =
        consume site.redis barcode_badge found.hash site.limits.per_badge_per_minute 60 s

    pub check_badge_quota_run :
        (found : Described)
        → (badge_quota found).0.allowed ≡ true
        → check_badge_quota site now id found dto (db, s)
          ≡ check_device site now id found dto (db, (badge_quota found).1)
    unfolding check_badge_quota ◌>>=◌ on_redis
    check_badge_quota_run found e = rw (e, check_badge_quota) refl

    pub check_barcode_run :
        (found : Described)
        → site.describe dto.barcode ≡ some found
        → check_barcode site now id dto (db, s) ≡ check_badge_quota site now id found dto (db, s)
    unfolding check_barcode
    check_barcode_run found e = rw (e, check_barcode) refl

    abbrev pub device_quota : RateLimitDecision × ρ
    device_quota = consume site.redis barcode_device id site.limits.per_device_per_minute 60 s

    pub check_device_quota_run :
        device_quota.0.allowed ≡ true
        → check_device_quota site now id dto (db, s)
          ≡ check_barcode site now id dto (db, device_quota.1)
    unfolding check_device_quota ◌>>=◌ on_redis
    check_device_quota_run e = rw (e, check_device_quota) refl

    abbrev pub lockout : Bool × ρ
    lockout = is_locked_out site.redis barcode id s

    pub check_lockout_run :
        lockout.0 ≡ false
        → check_lockout site now id dto (db, s) ≡ check_device_quota site now id dto (db, lockout.1)
    unfolding check_lockout ◌>>=◌ on_redis
    check_lockout_run e = rw (e, check_lockout) refl

    pub authenticate_run :
        dto.device_id ≡ id
        → authenticate site now dto id (db, s) ≡ check_lockout site now id dto (db, s)
    unfolding authenticate
    authenticate_run e = let same = (==_iff dto.device_id id).1 e in rw (same, authenticate) refl

    -- The same tests, failed.
    pub check_device_denied :
        (found : Described)
        → usable_device site now id db ≡ none
        → check_device site now id found dto (db, s)
          ≡ deny site now device_unavailable BarcodeScanResult.device_revoked id dto
              (some found)
              none
              (db, s)
    unfolding check_device ◌>>=◌ on_db
    check_device_denied found e = rw (e, check_device) refl

    pub check_badge_quota_denied :
        (found : Described)
        → (badge_quota found).0.allowed ≡ false
        → check_badge_quota site now id found dto (db, s)
          ≡ deny site now rate_limited BarcodeScanResult.rate_limited id dto
              (some found)
              (some (badge_quota found).0.retry_after_seconds)
              (db, (badge_quota found).1)
    unfolding check_badge_quota ◌>>=◌ on_redis
    check_badge_quota_denied found e = rw (e, check_badge_quota) refl

    pub check_barcode_denied :
        site.describe dto.barcode ≡ none
        → check_barcode site now id dto (db, s)
          ≡ deny site now badge_denied BarcodeScanResult.unknown_badge id dto none none (db, s)
    unfolding check_barcode
    check_barcode_denied e = rw (e, check_barcode) refl

    pub check_device_quota_denied :
        device_quota.0.allowed ≡ false
        → check_device_quota site now id dto (db, s)
          ≡ deny site now rate_limited BarcodeScanResult.rate_limited id dto none
              (some device_quota.0.retry_after_seconds)
              (db, device_quota.1)
    unfolding check_device_quota ◌>>=◌ on_redis
    check_device_quota_denied e = rw (e, check_device_quota) refl

    pub check_lockout_denied :
        lockout.0 ≡ true
        → check_lockout site now id dto (db, s)
          ≡ deny site now rate_limited BarcodeScanResult.rate_limited id dto none
              (some (site.limits.lockout_minutes * 60))
              (db, lockout.1)
    unfolding check_lockout ◌>>=◌ on_redis
    check_lockout_denied e = rw (e, check_lockout) refl

    pub authenticate_foreign :
        (dto.device_id == id) ≡ false
        → authenticate site now dto id (db, s) ≡ (raised Error.forbidden, db, s)
    unfolding authenticate on_db
    authenticate_foreign e = rw (e, authenticate) refl
