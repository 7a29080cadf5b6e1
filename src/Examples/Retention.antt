-- ===== src/Examples/Retention.antt =====
-- Two companies with different retentions.
use phone_control.Common.{
  ℕ, ◌≡◌, refl, inl, inr, false, [], ◌∷◌, none, some, keep, ltb, if◌then◌else◌, ◌*◌, arith,
}
use phone_control.Common.Ids.{Within}
use phone_control.Store.{LocationEvent, Db}
use phone_control.Maintenance.{RetentionPolicy, Month, Archive, apply_retention}
use phone_control.Maintenance.Retained.{is_retained, without_old_events, apply_retention_exact}
use phone_control.Maintenance.Spared.{IsRouted, apply_retention_spares}
use phone_control.Examples.{db}

abbrev strict : RetentionPolicy
strict = record {
  company_id = 1;
  location_events_days = 1;
  geofence_events_days = 1;
  security_events_days = 1;
}

abbrev patient : RetentionPolicy
patient = record strict { company_id = 2; location_events_days = 3 }

abbrev march : Month
march = record { year = 2026; month = 3 }

-- One partition, of the rows before the fifth day.
abbrev day : ℕ
day = 86400000

abbrev archive : Archive
archive = record {
  policies = strict ∷ patient ∷ [];
  partitions = march ∷ [];
  partition_of = λ r. if ltb r.recorded_at 432000000 then some march else none;
  end_of_month = λ m. 432000000;
}

abbrev position : (id company day : ℕ) → LocationEvent
position id company day = record {
  id = id;
  event_id = id;
  company_id = company;
  device_id = 7;
  session_id = none;
  user_id = none;
  depot_id = none;
  recorded_at = day * 86400000;
  latitude = 0;
  longitude = 0;
  accuracy_meters = none;
  is_mock = false;
  battery_level = none;
  clock_suspect = false;
}

abbrev tracked : Db
tracked = record db { location_events = position 1 1 5 ∷ position 2 2 5 ∷ position 3 2 6 ∷ [] }

apply_retention_exact_example :
    apply_retention archive 691200000 tracked
    ≡ some (
        without_old_events 691200000 archive.policies (record tracked {
          location_events =
              keep (is_retained archive archive.policies 691200000) tracked.location_events;
        }))
apply_retention_exact_example = apply_retention_exact archive 691200000 tracked (λ e. cc e)

archive-IsRouted : IsRouted archive
archive-IsRouted r m e = ground arith

apply_retention_spares_example :
    (db' : Db) × (apply_retention archive 691200000 tracked ≡ some db')
    × Within (position 2 2 5) db'.location_events
apply_retention_spares_example =
    apply_retention_spares archive 691200000 (position 2 2 5) patient tracked archive-IsRouted
      ((refl, tt), (tt, tt)) (inr (inl refl)) refl (omega arith) (inr (inl refl))
