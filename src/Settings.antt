-- ===== src/Settings.antt =====
-- apps/api/src/settings/settings.service.ts: the settings of a company, a depot and a phone. A JSON
-- column is `none` when it does not hold the kind of value that the code looks for; a JSON object is
-- a number.
pub mod Cascade
use phone_control.Common.{
  ℕ, ◌+◌, Bool, true, false, ◌&&◌, ◌||◌, List, [], ◌∷◌, Option, none, some, ◌==◌, ltb, not, is_some,
  if◌then◌else◌, keep, get_or,
}
use phone_control.Common.Sort.{sort_by}

-- NUMERIC_KEYS
pub data NumericKey : Type 0 where
  location_interval_active_seconds location_interval_idle_seconds : NumericKey
  location_min_distance_meters heartbeat_interval_seconds sync_interval_seconds : NumericKey
  offline_auth_max_duration_minutes offline_cache_max_age_minutes : NumericKey
  session_max_duration_minutes battery_alert_threshold offline_alert_delay_minutes : NumericKey
  gps_accuracy_threshold_meters geofence_confirmation_seconds : NumericKey
  geofence_confirmation_samples : NumericKey

abbrev pub numeric_keys : List NumericKey
numeric_keys =
    location_interval_active_seconds ∷ location_interval_idle_seconds ∷ location_min_distance_meters
    ∷ heartbeat_interval_seconds ∷ sync_interval_seconds ∷ offline_auth_max_duration_minutes
    ∷ offline_cache_max_age_minutes ∷ session_max_duration_minutes ∷ battery_alert_threshold
    ∷ offline_alert_delay_minutes ∷ gps_accuracy_threshold_meters ∷ geofence_confirmation_seconds
    ∷ geofence_confirmation_samples ∷ []

pub record ResolvedSettings : Type 0 where
  pub numeric : NumericKey → ℕ
  pub offline_auth_enabled : Bool
  pub allowed_apps : List ℕ
  pub blocked_apps : List ℕ
  pub kiosk_features : ℕ
  pub version : ℕ

-- A row of the table. The numbers, the flag and the version are never null.
pub record DeviceSettings : Type 0 where
  pub company_id : ℕ
  pub device_id : Option ℕ
  pub depot_id : Option ℕ
  pub numeric : NumericKey → ℕ
  pub offline_auth_enabled : Bool
  pub allowed_apps : Option (List ℕ)
  pub blocked_apps : Option (List ℕ)
  pub kiosk_features : Option ℕ
  pub version : ℕ

abbrev pub default_numeric : NumericKey → ℕ
default_numeric location_interval_active_seconds = 60
default_numeric location_interval_idle_seconds = 300
default_numeric location_min_distance_meters = 50
default_numeric heartbeat_interval_seconds = 300
default_numeric sync_interval_seconds = 900
default_numeric offline_auth_max_duration_minutes = 480
default_numeric offline_cache_max_age_minutes = 1440
default_numeric session_max_duration_minutes = 960
default_numeric battery_alert_threshold = 15
default_numeric offline_alert_delay_minutes = 30
default_numeric gps_accuracy_threshold_meters = 100
default_numeric geofence_confirmation_seconds = 120
default_numeric geofence_confirmation_samples = 3

-- DEFAULT_SETTINGS; 0 is the empty object.
abbrev pub default_settings : ResolvedSettings
default_settings = record {
  numeric = default_numeric;
  offline_auth_enabled = true;
  allowed_apps = [];
  blocked_apps = [];
  kiosk_features = 0;
  version = 0;
}

abbrev pub is_this : Option ℕ → Option ℕ → Bool
is_this none found = false
is_this (some id) none = false
is_this (some id) (some found) = found == id

-- The rows that `findMany` selects.
abbrev pub concerns : ℕ → (device depot : Option ℕ) → DeviceSettings → Bool
concerns company device depot r =
    r.company_id == company
    && (is_this device r.device_id
        || (is_this depot r.depot_id && not (is_some r.device_id))
        || (not (is_some r.device_id) && not (is_some r.depot_id)))

abbrev pub rank : DeviceSettings → ℕ
rank r = if is_some r.device_id then 3 else if is_some r.depot_id then 2 else 1

abbrev pub ranks_before : DeviceSettings → DeviceSettings → Bool
ranks_before a b = ltb (rank a) (rank b)

-- The name of a key.
abbrev pub index : NumericKey → ℕ
index location_interval_active_seconds = 0
index location_interval_idle_seconds = 1
index location_min_distance_meters = 2
index heartbeat_interval_seconds = 3
index sync_interval_seconds = 4
index offline_auth_max_duration_minutes = 5
index offline_cache_max_age_minutes = 6
index session_max_duration_minutes = 7
index battery_alert_threshold = 8
index offline_alert_delay_minutes = 9
index gps_accuracy_threshold_meters = 10
index geofence_confirmation_seconds = 11
index geofence_confirmation_samples = 12

-- The loop over the numeric keys of one row.
unfoldable pub apply_keys : List NumericKey → (row resolved : NumericKey → ℕ) → NumericKey → ℕ
apply_keys [] row resolved key = resolved key
apply_keys (k ∷ ks) row resolved key =
    apply_keys ks row (λ j. if index j == index k then row k else resolved j) key

unfoldable pub apply_row : DeviceSettings → ResolvedSettings → ResolvedSettings
unfolding apply_keys
apply_row row resolved = record {
  numeric = apply_keys numeric_keys row.numeric resolved.numeric;
  offline_auth_enabled = row.offline_auth_enabled;
  allowed_apps = get_or row.allowed_apps resolved.allowed_apps;
  blocked_apps = get_or row.blocked_apps resolved.blocked_apps;
  kiosk_features = get_or row.kiosk_features resolved.kiosk_features;
  version = resolved.version + row.version;
}

-- `version` is counted beside the settings, from 0 like that of the defaults.
unfoldable pub apply_rows : List DeviceSettings → ResolvedSettings → ResolvedSettings
unfolding apply_row
apply_rows [] resolved = resolved
apply_rows (r ∷ rs) resolved = apply_rows rs (apply_row r resolved)

unfoldable pub resolve_settings :
    (table : List DeviceSettings) (company : ℕ) (device depot : Option ℕ) → ResolvedSettings
unfolding apply_rows sort_by
resolve_settings table company device depot =
    apply_rows (sort_by ranks_before (keep (concerns company device depot) table)) default_settings

abbrev pub resolve_for_device : List DeviceSettings → ℕ → ℕ → Option ℕ → ResolvedSettings
resolve_for_device table company device depot = resolve_settings table company (some device) depot

abbrev pub resolve_for_company : List DeviceSettings → ℕ → Option ℕ → ResolvedSettings
resolve_for_company table company depot = resolve_settings table company none depot
