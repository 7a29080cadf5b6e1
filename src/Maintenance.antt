-- ===== src/Maintenance.antt =====
-- apps/api/src/worker/maintenance.job.ts: expired commands and the deletion of old rows. The table of
-- positions is partitioned by month; the rows of a table stand in the order in which the database
-- scans them. A date before 1970 is 0, which no row and no month precedes either.
pub mod Purge
pub mod Retained
pub mod Spared
use phone_control.Common.{
  ℕ, zero, suc, ◌+◌, ◌-◌, ◌*◌, Bool, true, false, not, ◌&&◌, List, [], ◌∷◌, Option, none, some,
  ◌==◌, ltb, leb, if◌then◌else◌, length, keep, update_where, count_where,
}
use phone_control.Store.Enums.{CommandStatus}
use phone_control.Store.{
  LocationEvent, GeofenceEvent, SecurityEvent, BarcodeScanEvent, DeviceCommand, Db, M, ◌>>=◌, ◌>>◌,
  pure, read, modify,
}

pub record RetentionPolicy : Type 0 where
  pub company_id : ℕ
  pub location_events_days : ℕ
  pub geofence_events_days : ℕ
  pub security_events_days : ℕ

-- The year and the month in the name of a partition.
pub record Month : Type 0 where
  pub year : ℕ
  pub month : ℕ

-- The policies, the partitions of the positions, the partition where a position is stored (none for
-- the default one) and `Date.UTC(year, month, 1)`, which is the end of the month.
pub record Archive : Type 0 where
  pub policies : List RetentionPolicy
  pub partitions : List Month
  pub partition_of : LocationEvent → Option Month
  pub end_of_month : Month → ℕ

-- `updateMany` on the commands that no phone fetched.
abbrev pub is_unfetched : CommandStatus → Bool
is_unfetched CommandStatus.pending = true
is_unfetched CommandStatus.sent = true
is_unfetched _ = false

abbrev pub is_expirable : (now : ℕ) → DeviceCommand → Bool
is_expirable now c = is_unfetched c.status && ltb c.expires_at now

unfoldable pub expire_commands : (now : ℕ) → M ℕ
expire_commands now = do
  count ← read (λ db. count_where (is_expirable now) db.commands)
  modify (λ db. record db {
    commands =
        update_where (is_expirable now) (λ c. record c { status = CommandStatus.expired })
          db.commands;
  })
  pure count

abbrev pub cutoff : (now days : ℕ) → ℕ
cutoff now days = now - days * 86400000

abbrev pub same_month : Month → Month → Bool
same_month a b = a.year == b.year && a.month == b.month

abbrev pub is_stored_in : Archive → Month → LocationEvent → Bool
is_stored_in archive m r = elim (archive.partition_of r) [ none ↦ false | some n ↦ same_month n m ]

-- One partition after the other.
unfoldable pub drop_partitions :
    Archive → (limit : ℕ) → List Month → List LocationEvent → List LocationEvent
drop_partitions archive limit [] rows = rows
drop_partitions archive limit (m ∷ ms) rows = drop_partitions archive limit ms (
    if ltb limit (archive.end_of_month m)
    then rows
    else keep (λ r. not (is_stored_in archive m r)) rows)

-- `DELETE` of at most `n` rows.
unfoldable pub delete_some : {A : Type 0} → (A → Bool) → (n : ℕ) → List A → List A
delete_some q zero xs = xs
delete_some q (suc n) [] = []
delete_some q (suc n) (x ∷ xs) =
    let deleting = delete_some q n xs in
    let keeping = x ∷ delete_some q (suc n) xs in if q x then deleting else keeping

abbrev pub batch_size : ℕ
batch_size = 10000

-- `for (;;)` on fuel: `none` when it is used up.
unfoldable pub purge_batches :
    {A : Type 0} → (q : A → Bool) (batch fuel deleted : ℕ) → List A → Option (List A × ℕ)
unfolding delete_some
purge_batches q batch zero deleted rows = none
purge_batches q batch (suc fuel) deleted rows =
    let left = delete_some q batch rows in
    let lot = length rows - length left in
    let again = purge_batches q batch fuel (deleted + lot) left in
    if ltb lot batch then some (left, deleted + lot) else again

abbrev pub is_outdated : (now : ℕ) → RetentionPolicy → LocationEvent → Bool
is_outdated now p r =
    r.company_id == p.company_id && ltb r.recorded_at (cutoff now p.location_events_days)

-- The fuel is one more than the rows.
unfoldable pub purge_stricter :
    (max now : ℕ)
    → List RetentionPolicy
    → (total : ℕ) → List LocationEvent
    → Option (List LocationEvent × ℕ)
unfolding purge_batches
purge_stricter max now [] total rows = some (rows, total)
purge_stricter max now (p ∷ ps) total rows =
    let skipped = purge_stricter max now ps total rows in
    if leb max p.location_events_days
    then skipped
    else elim (purge_batches (is_outdated now p) batch_size (suc (length rows)) 0 rows) [
      | none ↦ none
      | some (left, deleted) ↦ purge_stricter max now ps (total + deleted) left
    ]

abbrev pub max_of : List ℕ → ℕ
max_of [] = 0
max_of (n ∷ ns) = let rest = max_of ns in if ltb rest n then n else rest

abbrev pub days_of : List RetentionPolicy → List ℕ
days_of [] = []
days_of (p ∷ ps) = p.location_events_days ∷ days_of ps

abbrev pub max_location_days : List RetentionPolicy → ℕ
max_location_days ps = max_of (days_of ps)

abbrev pub is_old_geofence_event : (now : ℕ) → RetentionPolicy → GeofenceEvent → Bool
is_old_geofence_event now p e =
    e.company_id == p.company_id && ltb e.occurred_at (cutoff now p.geofence_events_days)

abbrev pub is_old_security_event : (now : ℕ) → RetentionPolicy → SecurityEvent → Bool
is_old_security_event now p e =
    e.company_id == p.company_id && ltb e.occurred_at (cutoff now p.security_events_days)

abbrev pub is_old_scan : (now : ℕ) → RetentionPolicy → BarcodeScanEvent → Bool
is_old_scan now p e =
    e.company_id == p.company_id && ltb e.scanned_at (cutoff now p.security_events_days)

-- The three `deleteMany` for a policy.
abbrev pub purge_events : (now : ℕ) → RetentionPolicy → Db → Db
purge_events now p db = record db {
  geofence_events = keep (λ e. not (is_old_geofence_event now p e)) db.geofence_events;
  security_events = keep (λ e. not (is_old_security_event now p e)) db.security_events;
  scan_events = keep (λ e. not (is_old_scan now p e)) db.scan_events;
}

unfoldable pub purge_all_events : (now : ℕ) → List RetentionPolicy → Db → Db
purge_all_events now [] db = db
purge_all_events now (p ∷ ps) db = purge_all_events now ps (purge_events now p db)

abbrev pub retain : Archive → List RetentionPolicy → (now : ℕ) → Db → Option Db
retain archive policies now db =
    let max = max_location_days policies in
    elim (purge_stricter max now policies 0
      (drop_partitions archive (cutoff now max) archive.partitions db.location_events)) [
        | none ↦ none
        | some (rows, total) ↦
            some (purge_all_events now policies (record db { location_events = rows }))
      ]

-- Nothing is done without a policy.
abbrev pub retain_if_any : Archive → List RetentionPolicy → (now : ℕ) → Db → Option Db
retain_if_any archive [] now db = some db
retain_if_any archive (p ∷ ps) now db = retain archive (p ∷ ps) now db

unfoldable pub apply_retention : Archive → (now : ℕ) → Db → Option Db
unfolding drop_partitions purge_stricter purge_all_events
apply_retention archive = retain_if_any archive archive.policies
