-- ===== src/Examples/Beats.antt =====
-- Phones that report how they are, and phones that are silent.
use phone_control.Common.{◌≡◌, refl, true, false, [], none, some, arith}
use phone_control.Store.Keys.{Key}
use phone_control.Alerts.{open_count}
use phone_control.Store.{done}
use phone_control.Health.{Heartbeat, heartbeat, check_company_health}
use phone_control.Health.Location.{heartbeat_location}
use phone_control.Health.Offline.{check_company_health_open}
use phone_control.Examples.{db}

-- A full phone without its location.
abbrev beat : Heartbeat
beat = record {
  battery = some 80;
  charging = some true;
  gps = some false;
  device_owner_active = none;
}

heartbeat_location_example :
    open_count 1 (Key.location_disabled 7) (heartbeat [] 7 beat 500 db).1.alerts ≡ 1
heartbeat_location_example = heartbeat_location [] 7 beat 500 db _ refl (λ company key. omega arith)

check_company_health_open_example :
    let (answer, after) = check_company_health [] 1 9000000 db in
    (answer ≡ done tt) × (open_count 1 (Key.device_offline 7) after.alerts ≡ 1)
check_company_health_open_example =
    check_company_health_open [] 1 9000000 7 db (λ company key. omega arith) tt
