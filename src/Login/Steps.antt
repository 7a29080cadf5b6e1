-- ===== src/Login/Steps.antt =====
-- `authenticate` of apps/api/src/auth/barcode-auth.service.ts, a definition for what remains to be
-- done after each of its checks, the last first.
use phone_control.Common.{
  ℕ, ◌+◌, ◌*◌, ◌==◌, ◌&&◌, Bool, true, false, Option, none, some, not, leb, get_or, is_some,
  find_first, any, if◌then◌else◌,
}
use phone_control.Store.Enums.{
  BarcodeScanResult, AlertType, Severity, SecurityEventType, is_active_user, is_active_badge,
}
use phone_control.Store.Keys.{Key}
use phone_control.Store.{Device, User, Badge, Db, Error, throw, read}
use phone_control.Alerts.{raise}
use phone_control.Settings.{NumericKey, resolve_for_device}
use phone_control.Limiter.{
  barcode, barcode_device, barcode_badge, consume, record_failure, clear_failures, is_locked_out,
  lock_out,
}
use phone_control.BadgeHash.{Described}
use phone_control.Login.Effects.{Exec, ◌>>=◌, ◌>>◌, answer, nothing, on_db, on_redis, ignoring}
use phone_control.Login.{
  BarcodeAuth, DenialReason, badge_denied, device_not_authorized, device_unavailable, rate_limited,
  Response, granted, Site, Scan, scan_time, hour_bucket, deny_response, record_scan,
  record_login_event, login_alert, is_usable, has_hash, is_revoked_badge, assigns, open_session,
}

module _ {ρ : Type 0} (site : Site ρ) (now : ℕ) where
  -- `recordScan`, if the context has a company.
  unfoldable pub record_in_context :
      (company : Option ℕ) → ℕ → Scan → BarcodeAuth → Exec ρ (Unit {0})
  record_in_context none device scan dto = nothing
  record_in_context (some company) device scan dto =
      on_db (record_scan company device scan dto (scan_time dto now))

  -- A scan that is refused before a badge was found.
  abbrev pub early_scan : BarcodeScanResult → Option Described → Scan
  early_scan result found = record {
    badge_id = none;
    user_id = none;
    session_id = none;
    result = result;
    hash = elim found [ none ↦ none | some d ↦ some d.hash ];
  }

  unfoldable pub deny :
      DenialReason
      → BarcodeScanResult
      → (device : ℕ) → BarcodeAuth
      → Option Described
      → (retry : Option ℕ) → Exec ρ Response
  unfolding record_in_context
  deny reason result device dto found retry = do
    record_in_context site.context_company device (early_scan result found) dto
    answer (deny_response reason true retry)

  unfoldable pub register_failure : (device company : ℕ) → Exec ρ (Unit {0})
  register_failure device company = do
    failures ← on_redis (record_failure site.redis barcode device 3600)
    if leb site.limits.lockout_failures failures
        then (do
          _ ← on_redis (lock_out site.redis barcode device site.limits.lockout_minutes)
          ignoring (
              on_db (
                raise (
                  login_alert company device none none AlertType.device_tampering Severity.high
                    (Key.barcode_lockout device)))))
        else nothing

  abbrev pub detailed : Device → Bool
  detailed device = get_or (site.company_settings device.company_id).detailed_denial_messages true

  abbrev pub needs_assignment : Device → Bool
  needs_assignment device =
      get_or (site.company_settings device.company_id).require_device_assignment false

  abbrev pub badge_scan : BarcodeScanResult → Described → Badge → (session : Option ℕ) → Scan
  badge_scan result found badge session = record {
    badge_id = some badge.id;
    user_id = some badge.user_id;
    session_id = session;
    result = result;
    hash = some found.hash;
  }

  -- A badge that is known and refused: the scan, the event and the failure.
  unfoldable pub refuse_badge :
      BarcodeScanResult → Device → Described → Badge → BarcodeAuth → Exec ρ (Unit {0})
  unfolding register_failure
  refuse_badge result device found badge dto = do
    on_db (
        record_scan device.company_id device.id (badge_scan result found badge none) dto
          (scan_time dto now))
    on_db (
        record_login_event device.company_id device.id (some badge.user_id)
          SecurityEventType.unauthorized_user Severity.medium none now)
    register_failure device.id device.company_id

  abbrev pub session_end : Device → ℕ
  session_end device =
      now
      + (resolve_for_device site.device_settings device.company_id device.id
            device.depot_id).numeric
          NumericKey.session_max_duration_minutes
        * 60000

  unfoldable pub succeed : Device → Described → Badge → User → BarcodeAuth → Exec ρ Response
  succeed device found badge user dto = do
    session ← on_db (open_session device badge now (session_end device))
    on_db (
        record_scan device.company_id device.id
          (badge_scan BarcodeScanResult.success found badge (some session.id)) dto
          (scan_time dto now))
    on_db (
        record_login_event device.company_id device.id (some badge.user_id)
          SecurityEventType.session_started Severity.low (some session.id) now)
    _ ← on_redis (clear_failures site.redis barcode device.id)
    answer (granted user.id session)

  unfoldable pub refuse_unassigned : Device → Described → Badge → BarcodeAuth → Exec ρ Response
  unfolding refuse_badge
  refuse_unassigned device found badge dto = do
    refuse_badge BarcodeScanResult.device_not_authorized device found badge dto
    ignoring (
        on_db (
          raise (
            login_alert device.company_id device.id (some badge.user_id) device.depot_id
              AlertType.unauthorized_user Severity.medium
              (Key.unauthorized device.id badge.user_id (hour_bucket (scan_time dto now))))))
    answer (deny_response device_not_authorized (detailed device) none)

  -- Is this phone assigned to the driver, where the company wants that?
  unfoldable pub check_assignment :
      Device → Described → Badge → User → BarcodeAuth → Exec ρ Response
  unfolding succeed refuse_unassigned
  check_assignment device found badge user dto = do
    assigned ←
        on_db
          (read (λ db. any (assigns device.company_id badge.user_id device.id now) db.assignments))
    if needs_assignment device && not assigned
        then refuse_unassigned device found badge dto
        else succeed device found badge user dto

  unfoldable pub check_company : Device → Described → Badge → User → BarcodeAuth → Exec ρ Response
  unfolding check_assignment
  check_company device found badge user dto =
      if badge.company_id == device.company_id && user.company_id == device.company_id
      then check_assignment device found badge user dto
      else (do
        on_db (
            record_scan device.company_id device.id
              (badge_scan BarcodeScanResult.company_mismatch found badge none) dto
              (scan_time dto now))
        answer (deny_response badge_denied (detailed device) none))

  unfoldable pub check_user : Device → Described → Badge → User → BarcodeAuth → Exec ρ Response
  unfolding check_company refuse_badge
  check_user device found badge user dto =
      if is_active_user user.status && not (is_some user.deleted_at)
      then check_company device found badge user dto
      else (do
        refuse_badge BarcodeScanResult.user_inactive device found badge dto
        answer (deny_response badge_denied (detailed device) none))

  -- The user of a badge is there, by its foreign key.
  unfoldable pub check_badge : Device → Described → Badge → BarcodeAuth → Exec ρ Response
  unfolding check_user refuse_badge
  check_badge device found badge dto = do
    holder ← on_db (read (λ db. find_first (λ u. u.id == badge.user_id) db.users))
    elim holder [
      | none ↦ on_db (throw Error.record_not_found)
      | some user ↦
          if is_active_badge badge.status then check_user device found badge user dto else (do
            refuse_badge
                (if is_revoked_badge badge.status
                  then BarcodeScanResult.badge_revoked
                  else BarcodeScanResult.badge_inactive)
                device found badge dto
            answer (deny_response badge_denied (detailed device) none))
    ]

  unfoldable pub refuse_unknown : Device → Described → BarcodeAuth → Exec ρ Response
  unfolding register_failure
  refuse_unknown device found dto = do
    on_db (
        record_scan device.company_id device.id
          (early_scan BarcodeScanResult.unknown_badge (some found)) dto (scan_time dto now))
    on_db (
        record_login_event device.company_id device.id none SecurityEventType.unknown_badge
          Severity.medium none now)
    register_failure device.id device.company_id
    ignoring (
        on_db (
          raise (
            login_alert device.company_id device.id none device.depot_id AlertType.unknown_badge
              Severity.medium (Key.unknown_badge device.id (hour_bucket (scan_time dto now))))))
    answer (deny_response badge_denied (detailed device) none)

  unfoldable pub find_badge : Device → Described → BarcodeAuth → Exec ρ Response
  unfolding refuse_unknown check_badge
  find_badge device found dto = do
    badge ← on_db (read (λ db. find_first (has_hash device.company_id found.hash) db.badges))
    elim badge [ none ↦ refuse_unknown device found dto | some b ↦ check_badge device found b dto ]

  abbrev pub usable_device : ℕ → Db → Option Device
  usable_device device db = elim (find_first (λ d. d.id == device) db.devices) [
    | none ↦ none
    | some d ↦ if is_usable d then some d else none
  ]

  unfoldable pub check_device : ℕ → Described → BarcodeAuth → Exec ρ Response
  unfolding find_badge deny
  check_device device_id found dto = do
    device ← on_db (read (usable_device device_id))
    elim device [
      | none ↦
          deny device_unavailable BarcodeScanResult.device_revoked device_id dto (some found) none
      | some d ↦ find_badge d found dto
    ]

  unfoldable pub check_badge_quota : ℕ → Described → BarcodeAuth → Exec ρ Response
  unfolding check_device deny
  check_badge_quota device_id found dto = do
    quota ←
        on_redis (consume site.redis barcode_badge found.hash site.limits.per_badge_per_minute 60)
    if quota.allowed
        then check_device device_id found dto
        else deny rate_limited BarcodeScanResult.rate_limited device_id dto (some found)
            (some quota.retry_after_seconds)

  unfoldable pub check_barcode : ℕ → BarcodeAuth → Exec ρ Response
  unfolding check_badge_quota deny
  check_barcode device_id dto = elim (site.describe dto.barcode) [
    | none ↦ deny badge_denied BarcodeScanResult.unknown_badge device_id dto none none
    | some found ↦ check_badge_quota device_id found dto
  ]

  unfoldable pub check_device_quota : ℕ → BarcodeAuth → Exec ρ Response
  unfolding check_barcode deny
  check_device_quota device_id dto = do
    quota ←
        on_redis (consume site.redis barcode_device device_id site.limits.per_device_per_minute 60)
    if quota.allowed
        then check_barcode device_id dto
        else deny rate_limited BarcodeScanResult.rate_limited device_id dto none
            (some quota.retry_after_seconds)

  unfoldable pub check_lockout : ℕ → BarcodeAuth → Exec ρ Response
  unfolding check_device_quota deny
  check_lockout device_id dto = do
    locked ← on_redis (is_locked_out site.redis barcode device_id)
    if locked
        then deny rate_limited BarcodeScanResult.rate_limited device_id dto none
            (some (site.limits.lockout_minutes * 60))
        else check_device_quota device_id dto

  unfoldable pub authenticate : BarcodeAuth → (device_id : ℕ) → Exec ρ Response
  unfolding check_lockout
  authenticate dto device_id =
      if dto.device_id == device_id
      then check_lockout device_id dto
      else on_db (throw Error.forbidden)
