-- ===== src/Login/Refusals.antt =====
-- A login that is refused leaves the sessions and the phones alone.
use phone_control.Common.{
  ◌≡◌, ◌≢◌, ◌∙◌, refl, ℕ, Bool, true, false, if◌then◌else◌, Option, none, some, leb,
}
use phone_control.Store.{Db, Reply, done, raised, Session, Device, Badge}
use phone_control.Store.Enums.{BarcodeScanResult, SecurityEventType, Severity, AlertType}
use phone_control.Alerts.{RaiseAlertInput, raise}
use phone_control.Alerts.Effects.{raise-Spares}
use phone_control.Store.Keys.{Key}
use phone_control.Limiter.{barcode, lock_out}
use phone_control.BadgeHash.{Described}
use phone_control.Login.{
  BarcodeAuth, DenialReason, Response, granted, badge_denied, Site, Scan, deny_response,
  record_scan, record_login_event, login_alert,
}
use phone_control.Login.Effects.{
  Exec, continue, ◌>>=◌, ◌>>◌, answer, nothing, on_db, on_redis, ignoring,
}
use phone_control.Login.Steps.{
  record_in_context, deny, detailed, register_failure, refuse_badge, refuse_unassigned,
  refuse_unknown,
}

abbrev pub Kept : Db → Db → Type 0
Kept db db' = (db'.sessions ≡ db.sessions) × (db'.devices ≡ db.devices)

-- A response that grants nothing.
abbrev pub Denies : Reply Response → Type 0
Denies r = (user : ℕ) (session : Session) → r ≢ done (granted user session)

module _ {ρ : Type 0} where
  abbrev pub Keeps : {A : Type 0} → Exec ρ A → Type 0
  Keeps m = (db : Db) (s : ρ) → Kept db (m (db, s)).1

  continue-Kept :
      {A B : Type 0} (y : Reply A × Db × ρ) (f : A → Exec ρ B) (db : Db)
      → Kept db y.1
      → ((a : A) → Keeps (f a))
      → Kept db (continue y f).1
  continue-Kept (done a, db', s) f db h k = let next = k a db' s in (next.0 ∙ h.0, next.1 ∙ h.1)
  continue-Kept (raised e, db', s) f db h k = h

  pub Keeps-bind :
      {A B : Type 0} (m : Exec ρ A) (f : A → Exec ρ B)
      → Keeps m
      → ((a : A) → Keeps (f a))
      → Keeps (m >>= f)
  unfolding ◌>>=◌
  Keeps-bind m f h k db s = continue-Kept (m (db, s)) f db (h db s) k

  pub Keeps-nothing : Keeps nothing
  unfolding answer
  Keeps-nothing db s = (refl, refl)

  pub Keeps-redis : {A : Type 0} (f : ρ → A × ρ) → Keeps (on_redis f)
  unfolding on_redis
  Keeps-redis f db s = (refl, refl)

  pub Keeps-if :
      {A : Type 0} (b : Bool) (m n : Exec ρ A) → Keeps m → Keeps n → Keeps (if b then m else n)
  Keeps-if true m n h k = h
  Keeps-if false m n h k = k

  pub Keeps-raise : (input : RaiseAlertInput) → Keeps (ignoring (on_db (raise input)))
  unfolding on_db
  Keeps-raise input =
      Keeps-bind (on_db (raise input)) (λ _. nothing)
        (λ db s. let (_, kept) = raise-Spares input db in (kept.1, kept.2)) (λ _. Keeps-nothing)

  abbrev pub Refuses : Exec ρ Response → Type 0
  Refuses m = (db : Db) (s : ρ) → Kept db (m (db, s)).1 × Denies (m (db, s)).0

  continue-Denies :
      {A : Type 0} (y : Reply A × Db × ρ) (f : A → Exec ρ Response)
      → ((a : A) → Refuses (f a))
      → Denies (continue y f).0
  continue-Denies (done a, db, s) f k = (k a db s).1
  continue-Denies (raised e, db, s) f k = λ user session h. cc h

  pub Refuses-bind :
      {A : Type 0} (m : Exec ρ A) (f : A → Exec ρ Response)
      → Keeps m
      → ((a : A) → Refuses (f a))
      → Refuses (m >>= f)
  unfolding ◌>>=◌
  Refuses-bind m f h k db s =
      (Keeps-bind m f h (λ a d t. (k a d t).0) db s, continue-Denies (m (db, s)) f k)

  pub Refuses-answer :
      (reason : DenialReason) (detailed : Bool) (retry : Option ℕ)
      → Refuses (answer (deny_response reason detailed retry))
  unfolding deny_response answer
  Refuses-answer reason detailed retry db s = ((refl, refl), λ user session h. cc h)

  pub record_scan-Keeps :
      (company device : ℕ) (scan : Scan) (dto : BarcodeAuth) (at : ℕ)
      → Keeps (on_db (record_scan company device scan dto at))
  unfolding on_db record_scan
  record_scan-Keeps company device scan dto at db s = (refl, refl)

  pub record_login_event-Keeps :
      (company device : ℕ) (user : Option ℕ) (type : SecurityEventType) (severity : Severity)
      (session : Option ℕ) (at : ℕ)
      → Keeps (on_db (record_login_event company device user type severity session at))
  unfolding on_db record_login_event
  record_login_event-Keeps company device user type severity session at db s = (refl, refl)

module _ {ρ : Type 0} (site : Site ρ) (now : ℕ) where
  record_in_context-Keeps :
      (company : Option ℕ) (device : ℕ) (scan : Scan) (dto : BarcodeAuth)
      → Keeps (record_in_context site now company device scan dto)
  unfolding record_in_context record_scan on_db answer
  record_in_context-Keeps none device scan dto db s = (refl, refl)
  record_in_context-Keeps (some company) device scan dto db s = (refl, refl)

  pub deny-Refuses :
      (reason : DenialReason) (result : BarcodeScanResult) (device : ℕ) (dto : BarcodeAuth)
      (found : Option Described) (retry : Option ℕ)
      → Refuses (deny site now reason result device dto found retry)
  unfolding deny
  deny-Refuses reason result device dto found retry =
      Refuses-bind _ _ (record_in_context-Keeps site.context_company device _ dto)
        (λ _. Refuses-answer reason true retry)

  -- What follows the count of the failures.
  abbrev locking : (device company failures : ℕ) → Exec ρ (Unit {0})
  locking device company failures =
      if leb site.limits.lockout_failures failures
      then (do
        _ ← on_redis (lock_out site.redis barcode device site.limits.lockout_minutes)
        ignoring (
            on_db (
              raise (
                login_alert company device none none AlertType.device_tampering Severity.high
                  (Key.barcode_lockout device)))))
      else nothing

  lock_out-Keeps : (device company failures : ℕ) → Keeps (locking device company failures)
  lock_out-Keeps device company failures =
      Keeps-if (leb site.limits.lockout_failures failures) _ _
        (Keeps-bind (on_redis (lock_out site.redis barcode device site.limits.lockout_minutes)) _
          (Keeps-redis _) (λ _. Keeps-raise _))
        Keeps-nothing

  register_failure-Keeps : (device company : ℕ) → Keeps (register_failure site now device company)
  unfolding register_failure
  register_failure-Keeps device company =
      Keeps-bind _ _ (Keeps-redis _) (λ failures. lock_out-Keeps device company failures)

  pub refuse_badge-Keeps :
      (result : BarcodeScanResult) (device : Device) (found : Described) (badge : Badge)
      (dto : BarcodeAuth)
      → Keeps (refuse_badge site now result device found badge dto)
  unfolding refuse_badge
  refuse_badge-Keeps result device found badge dto =
      Keeps-bind _ _ (record_scan-Keeps _ _ _ dto _) (λ _.
        Keeps-bind _ _ (record_login_event-Keeps _ _ _ _ _ _ _)
          (λ _. register_failure-Keeps device.id device.company_id))

  pub refuse_badge-Refuses :
      (result : BarcodeScanResult) (device : Device) (found : Described) (badge : Badge)
      (dto : BarcodeAuth)
      → Refuses (do
        refuse_badge site now result device found badge dto
        answer (deny_response badge_denied (detailed site now device) none))
  refuse_badge-Refuses result device found badge dto =
      Refuses-bind _ _ (refuse_badge-Keeps result device found badge dto)
        (λ _. Refuses-answer badge_denied (detailed site now device) none)

  pub refuse_unassigned-Refuses :
      (device : Device) (found : Described) (badge : Badge) (dto : BarcodeAuth)
      → Refuses (refuse_unassigned site now device found badge dto)
  unfolding refuse_unassigned
  refuse_unassigned-Refuses device found badge dto =
      Refuses-bind _ _ (refuse_badge-Keeps _ device found badge dto)
        (λ _. Refuses-bind _ _ (Keeps-raise _) (λ _. Refuses-answer _ _ none))

  pub refuse_unknown-Refuses :
      (device : Device) (found : Described) (dto : BarcodeAuth)
      → Refuses (refuse_unknown site now device found dto)
  unfolding refuse_unknown
  refuse_unknown-Refuses device found dto = Refuses-bind _ _ (record_scan-Keeps _ _ _ dto _) (λ _.
      Refuses-bind _ _ (record_login_event-Keeps _ _ _ _ _ _ _) (λ _.
        Refuses-bind _ _ (register_failure-Keeps device.id device.company_id)
          (λ _. Refuses-bind _ _ (Keeps-raise _) (λ _. Refuses-answer _ _ none))))
