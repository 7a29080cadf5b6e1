-- ===== src/Examples/Config.antt =====
-- The settings of a phone whose depot has a row of its own.
use phone_control.Common.{◌≡◌, ◌⊎◌, ◌↔◌, Bool, All, true, false, [], ◌∷◌, none, some, keep}
use phone_control.Settings.{DeviceSettings, default_numeric, default_settings, resolve_settings}
use phone_control.Settings.Cascade.{
  InScope, IsDecidedBy, total_version, resolve_settings-IsResolved,
}

abbrev company_row : DeviceSettings
company_row = record {
  company_id = 1;
  device_id = none;
  depot_id = none;
  numeric = λ key. 7;
  offline_auth_enabled = false;
  allowed_apps = some (4 ∷ []);
  blocked_apps = none;
  kiosk_features = none;
  version = 3;
}

abbrev depot_row : DeviceSettings
depot_row = record company_row {
  depot_id = some 2;
  numeric = default_numeric;
  offline_auth_enabled = true;
  version = 5;
}

resolve_settings-IsResolved_example :
    let table = depot_row ∷ company_row ∷ [] in
    let resolved = resolve_settings table 1 (some 9) (some 2) in
    ((All (λ r. ¬ InScope 1 (some 9) (some 2) r) table × (resolved ≡ default_settings))
      ⊎ ((winner : DeviceSettings) × IsDecidedBy table 1 (some 9) (some 2) resolved winner))
    × ((in_scope : DeviceSettings → Bool) × ((r : DeviceSettings)
          → (in_scope r ≡ true) ↔ InScope 1 (some 9) (some 2) r)
        × (resolved.version ≡ total_version (keep in_scope table)))
resolve_settings-IsResolved_example =
    resolve_settings-IsResolved (depot_row ∷ company_row ∷ []) 1 (some 9) (some 2)
