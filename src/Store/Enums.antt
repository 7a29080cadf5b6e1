-- ===== src/Store/Enums.antt =====
-- The enumerations of apps/api/prisma/schema.prisma, and the tests that the code makes on them.
use phone_control.Common.{Bool, true, false}

pub data AdminRole : Type 0 where
  super_admin company_admin depot_admin viewer : AdminRole

pub data AdminStatus : Type 0 where
  active disabled : AdminStatus

pub data KioskMode : Type 0 where
  kiosk restricted standard : KioskMode

pub data DeviceState : Type 0 where
  unknown locked active returned locking : DeviceState

pub data EnrollmentStatus : Type 0 where
  pending enrolled revoked decommissioned : EnrollmentStatus

pub data SessionStatus : Type 0 where
  active ended revoked expired : SessionStatus

pub data SessionEndReason : Type 0 where
  new_session admin_logout scheduled_lock expired revoked offline_revalidation_failed :
      SessionEndReason

pub data UserStatus : Type 0 where
  active inactive archived : UserStatus

pub data BadgeStatus : Type 0 where
  active inactive revoked lost : BadgeStatus

pub data BarcodeScanResult : Type 0 where
  success unknown_badge badge_inactive badge_revoked user_inactive device_unknown :
      BarcodeScanResult
  device_not_enrolled device_revoked device_not_authorized company_mismatch : BarcodeScanResult
  rate_limited offline_granted offline_denied : BarcodeScanResult

-- AlertSeverity and SecuritySeverity have the same four values.
pub data Severity : Type 0 where
  low medium high critical : Severity

pub data AlertType : Type 0 where
  after_return_exit unknown_badge unauthorized_user device_offline location_disabled : AlertType
  security_event device_tampering battery_low not_returned lock_failed : AlertType

pub data AlertStatus : Type 0 where
  open_alert acknowledged resolved auto_closed : AlertStatus

pub data SecurityEventType : Type 0 where
  login_success login_failed unknown_badge unauthorized_user enter_depot exit_depot :
      SecurityEventType
  after_return_exit lock_device unlock_device device_offline location_disabled command_failed :
      SecurityEventType
  root_detected debugger_attached adb_enabled clock_tampering mock_location kiosk_exit_attempt :
      SecurityEventType
  device_owner_lost app_integrity_failed session_started session_ended : SecurityEventType

pub data CommandType : Type 0 where
  install_app uninstall_app request_screen_share lock_device unlock_device force_logout :
      CommandType
  sync_settings revoke_session refresh_configuration reboot wipe_device locate_now : CommandType
  collect_diagnostics decommission_device : CommandType

pub data CommandStatus : Type 0 where
  pending sent delivered executed failed expired cancelled : CommandStatus

pub data ScreenShareState : Type 0 where
  requested accepted refused ended_by_driver ended_by_admin expired failed : ScreenShareState

abbrev pub is_active_session : SessionStatus → Bool
is_active_session SessionStatus.active = true
is_active_session _ = false

abbrev pub is_active_user : UserStatus → Bool
is_active_user UserStatus.active = true
is_active_user _ = false

abbrev pub is_active_badge : BadgeStatus → Bool
is_active_badge BadgeStatus.active = true
is_active_badge _ = false

abbrev pub is_enrolled : EnrollmentStatus → Bool
is_enrolled EnrollmentStatus.enrolled = true
is_enrolled _ = false

abbrev pub is_open : AlertStatus → Bool
is_open AlertStatus.open_alert = true
is_open _ = false

-- `status: { in: [PENDING, SENT] }`
abbrev pub is_waiting : CommandStatus → Bool
is_waiting CommandStatus.pending = true
is_waiting CommandStatus.sent = true
is_waiting _ = false

abbrev pub is_executed : CommandStatus → Bool
is_executed CommandStatus.executed = true
is_executed _ = false

-- `state: { in: [REQUESTED, ACCEPTED] }`
abbrev pub is_ongoing : ScreenShareState → Bool
is_ongoing ScreenShareState.requested = true
is_ongoing ScreenShareState.accepted = true
is_ongoing _ = false

abbrev pub is_active_admin : AdminStatus → Bool
is_active_admin AdminStatus.active = true
is_active_admin AdminStatus.disabled = false
