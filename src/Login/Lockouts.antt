-- ===== src/Login/Lockouts.antt =====
-- Repeated failures lock the login of a phone.
use phone_control.Common.{ℕ, ◌*◌, ◌≡◌, ◌≤◌, refl, true, Option, none, some, arith, leb}
use phone_control.Store.Enums.{BarcodeScanResult}
use phone_control.Store.{Db, done}
use phone_control.Alerts.{RaiseAlertInput, raise}
use phone_control.Alerts.Effects.{raise-Spares}
use phone_control.Limiter.{
  RedisKey, lock, barcode, record_failure, is_locked_out, lock_out, holds_value,
}
use phone_control.BadgeHash.{Described}
use phone_control.Login.{
  BarcodeAuth, DenialReason, rate_limited, denied, positive, Site, record_scan, deny_response,
}
use phone_control.Login.Effects.{◌>>=◌, answer, on_db, on_redis, ignoring}
use phone_control.Login.Steps.{record_in_context, deny, register_failure, authenticate}
use phone_control.Login.Runs.{lockout, check_lockout_denied, authenticate_run}

holds_value-some :
    {ρ : Type 0} (x : Option (Option ℕ) × ρ) (v : ℕ)
    → x.0 ≡ some (some v)
    → (holds_value x).0 ≡ true
holds_value-some (none, t) v e = cc e
holds_value-some (some none, t) v e = cc e
holds_value-some (some (some w), t) v e = refl

module _ {ρ : Type 0} (site : Site ρ) (now : ℕ) where
  deny-answers :
      (reason : DenialReason) (result : BarcodeScanResult) (device : ℕ) (dto : BarcodeAuth)
      (found : Option Described) (retry : Option ℕ) (db : Db) (s : ρ) (context : Option ℕ)
      → site.context_company ≡ context
      → (deny site now reason result device dto found retry (db, s)).0
        ≡ done (deny_response reason true retry)
  unfolding deny record_in_context record_scan ◌>>=◌ answer on_db
  deny-answers reason result device dto found retry db s none e = rw (e, deny) refl
  deny-answers reason result device dto found retry db s (some company) e = rw (e, deny) refl

  ignored_alert :
      (input : RaiseAlertInput) (db : Db) (s : ρ) → (ignoring (on_db (raise input)) (db, s)).2 ≡ s
  unfolding ◌>>=◌ on_db answer
  ignored_alert input db s = let ((a, e), _) = raise-Spares input db in rw e refl

module _ {ρ : Type 0} (site : Site ρ) (now device company : ℕ) (db : Db) (s : ρ) where
  abbrev counted : ℕ × ρ
  counted = record_failure site.redis barcode device 3600 s

  abbrev locking : Option (Unit {0}) × ρ
  locking =
      site.redis.set_with_ttl (lock barcode device) 1 (site.limits.lockout_minutes * 60) counted.1

  register_failure_locks :
      leb site.limits.lockout_failures counted.0 ≡ true
      → (register_failure site now device company (db, s)).2 ≡ locking.1
  unfolding register_failure ◌>>=◌ on_redis lock_out
  register_failure_locks e = rw (e, register_failure) (ignored_alert site now _ db locking.1)

  -- When the failures of an hour reach the limit and Redis stores the lock, the next login on the
  -- phone is refused as rate limited, whatever is scanned, if Redis still has what it just stored.
  pub register_failure-authenticate :
      (later : ℕ) (dto : BarcodeAuth)
      → ((key : RedisKey) (value seconds : ℕ) (t : ρ)
          → (site.redis.set_with_ttl key value seconds t).0 ≡ some tt
          → (site.redis.get key (site.redis.set_with_ttl key value seconds t).1).0
            ≡ some (some value))
      → site.limits.lockout_failures ≤ counted.0
      → locking.0 ≡ some tt
      → dto.device_id ≡ device
      → let next = (register_failure site now device company (db, s)) in
        (authenticate site later dto device (next.1, next.2)).0
        ≡ done (denied rate_limited (positive (some (site.limits.lockout_minutes * 60))))
  unfolding deny_response is_locked_out
  register_failure-authenticate later dto law reached stored own =
      let next = register_failure site now device company (db, s) in
      let state = register_failure_locks (ground arith) in
      let kept = law (lock barcode device) 1 (site.limits.lockout_minutes * 60) counted.1 stored in
      let locked : (lockout site later dto next.1 next.2 device).0 ≡ true =
        rw state (holds_value-some (site.redis.get (lock barcode device) locking.1) 1 kept) in
      rw
        (
          authenticate_run site later dto next.1 next.2 device own,
          check_lockout_denied site later dto next.1 next.2 device locked,
        )
        (deny-answers site later rate_limited _ device dto none
          (some (site.limits.lockout_minutes * 60)) next.1
          (lockout site later dto next.1 next.2 device).1 site.context_company refl)
