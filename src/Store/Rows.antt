-- ===== src/Store/Rows.antt =====
-- The rows of the tables. An identifier is the number of its UUID, an instant is in milliseconds,
-- and a float that the code only stores is the number of its bits. Texts for people (titles,
-- messages, names) and JSON values are left out.
use phone_control.Common.{ℤ}
use phone_control.Common.{ℕ, Bool, Option}
use phone_control.Rules.Clock.{Text}
use phone_control.Rules.Schedule.{DepotSchedule}
use phone_control.Rules.Geofence.{SessionState, GeofenceEventType}
use phone_control.Store.Enums.{
  DeviceState, EnrollmentStatus, SessionStatus, SessionEndReason, UserStatus, BadgeStatus,
  BarcodeScanResult, Severity, AlertType, AlertStatus, SecurityEventType, CommandType,
  CommandStatus, ScreenShareState, KioskMode,
}
use phone_control.Store.Keys.{Key}

pub record Device : Type 0 where
  pub id : ℕ
  pub company_id : ℕ
  pub depot_id : Option ℕ
  pub enrollment_status : EnrollmentStatus
  pub state : DeviceState
  pub last_seen_at : Option ℕ
  pub last_sync_at : Option ℕ
  pub last_latitude : Option ℕ
  pub last_longitude : Option ℕ
  pub last_accuracy : Option ℕ
  pub last_location_at : Option ℕ
  pub revoked_at : Option ℕ
  pub deleted_at : Option ℕ
  pub asset_tag : Text
  pub device_owner_active : Bool
  pub kiosk_mode : KioskMode
  pub enrolled_at : Option ℕ
  pub offline_key : Option ℕ

pub record DeviceCredential : Type 0 where
  pub id : ℕ
  pub device_id : ℕ
  pub refresh_token_hash : ℕ
  pub family_id : ℕ
  pub expires_at : ℕ
  pub used_at : Option ℕ
  pub revoked_at : Option ℕ

pub record EnrollmentToken : Type 0 where
  pub id : ℕ
  pub company_id : ℕ
  pub depot_id : Option ℕ
  pub device_id : Option ℕ
  pub token_hash : ℕ
  pub asset_tag : Option Text
  pub kiosk_mode : KioskMode
  pub expires_at : ℕ
  pub used_at : Option ℕ

pub record Depot : Type 0 where
  pub id : ℕ
  pub company_id : ℕ
  pub latitude : ℕ
  pub longitude : ℕ
  pub schedule : DepotSchedule
  pub is_active : Bool
  pub deleted_at : Option ℕ

pub record Session : Type 0 where
  pub id : ℕ
  pub company_id : ℕ
  pub user_id : ℕ
  pub device_id : ℕ
  pub depot_id : Option ℕ
  pub badge_id : Option ℕ
  pub started_at : ℕ
  pub expires_at : ℕ
  pub ended_at : Option ℕ
  pub end_reason : Option SessionEndReason
  pub status : SessionStatus
  pub state : SessionState
  pub returned_at : Option ℕ
  pub returned_latitude : Option ℕ
  pub returned_longitude : Option ℕ
  pub returned_accuracy : Option ℕ
  pub offline_validated_at : Option ℕ

pub record User : Type 0 where
  pub id : ℕ
  pub company_id : ℕ
  pub status : UserStatus
  pub deleted_at : Option ℕ

pub record Badge : Type 0 where
  pub id : ℕ
  pub company_id : ℕ
  pub user_id : ℕ
  pub barcode_hash : ℕ
  pub status : BadgeStatus

pub record DeviceAssignment : Type 0 where
  pub company_id : ℕ
  pub user_id : ℕ
  pub device_id : ℕ
  pub valid_from : ℕ
  pub valid_until : Option ℕ
  pub revoked_at : Option ℕ

pub record DeviceCommand : Type 0 where
  pub id : ℕ
  pub company_id : ℕ
  pub device_id : ℕ
  pub command : CommandType
  pub status : CommandStatus
  pub priority : ℕ
  pub idempotency_key : Option Key
  pub created_by : Option ℕ
  pub created_at : ℕ
  pub sent_at : Option ℕ
  pub delivered_at : Option ℕ
  pub executed_at : Option ℕ
  pub expires_at : ℕ
  pub attempts : ℕ

pub record Alert : Type 0 where
  pub id : ℕ
  pub company_id : ℕ
  pub device_id : Option ℕ
  pub user_id : Option ℕ
  pub depot_id : Option ℕ
  pub session_id : Option ℕ
  pub type : AlertType
  pub severity : Severity
  pub latitude : Option ℕ
  pub longitude : Option ℕ
  pub dedupe_key : Option Key
  pub status : AlertStatus
  pub acknowledged_at : Option ℕ
  pub acknowledged_by : Option ℕ
  pub resolved_at : Option ℕ
  pub resolved_by : Option ℕ
  pub notified_at : Option ℕ

pub record SecurityEvent : Type 0 where
  pub id : ℕ
  pub event_id : Option ℕ
  pub company_id : ℕ
  pub device_id : ℕ
  pub user_id : Option ℕ
  pub session_id : Option ℕ
  pub type : SecurityEventType
  pub severity : Severity
  pub occurred_at : ℕ
  pub clock_suspect : Bool

pub record GeofenceEvent : Type 0 where
  pub id : ℕ
  pub event_id : ℕ
  pub company_id : ℕ
  pub device_id : ℕ
  pub user_id : Option ℕ
  pub session_id : Option ℕ
  pub depot_id : ℕ
  pub event_type : GeofenceEventType
  pub occurred_at : ℕ
  pub latitude : ℕ
  pub longitude : ℕ
  pub accuracy_meters : Option ℕ
  pub confidence : Option ℕ
  pub created_alert_id : Option ℕ
  pub clock_suspect : Bool

pub record BarcodeScanEvent : Type 0 where
  pub id : ℕ
  pub event_id : Option ℕ
  pub company_id : ℕ
  pub device_id : ℕ
  pub badge_id : Option ℕ
  pub user_id : Option ℕ
  pub session_id : Option ℕ
  pub barcode_hash : Option ℕ
  pub result : BarcodeScanResult
  pub scanned_at : ℕ
  pub latitude : Option ℕ
  pub longitude : Option ℕ
  pub offline : Bool
  pub clock_suspect : Bool

pub record LocationEvent : Type 0 where
  pub id : ℕ
  pub event_id : ℕ
  pub company_id : ℕ
  pub device_id : ℕ
  pub session_id : Option ℕ
  pub user_id : Option ℕ
  pub depot_id : Option ℕ
  pub recorded_at : ℕ
  pub latitude : ℕ
  pub longitude : ℕ
  pub accuracy_meters : Option ℕ
  pub is_mock : Bool
  pub battery_level : Option ℤ
  pub clock_suspect : Bool

pub record ScreenShareSession : Type 0 where
  pub id : ℕ
  pub company_id : ℕ
  pub device_id : ℕ
  pub user_id : Option ℕ
  pub requested_by : ℕ
  pub state : ScreenShareState
  pub requested_at : ℕ
  pub responded_at : Option ℕ
  pub started_at : Option ℕ
  pub ended_at : Option ℕ
  pub expires_at : ℕ
  pub frame_count : ℕ
