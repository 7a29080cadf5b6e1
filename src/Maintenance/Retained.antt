-- ===== src/Maintenance/Retained.antt =====
-- What the daily deletion leaves of each table.
use phone_control.Common.{
  ℕ, suc, ◌+◌, ◌≡◌, ◌≢◌, ◌∙◌, refl, sym, ap, inl, inr, Bool, false, not, ◌&&◌, List, [], ◌∷◌, some,
  if◌then◌else◌, ltb, leb, length, keep, any, count_where, Bool-cases, arith,
}
use phone_control.Common.Filters.{
  keep-same, keep-keep, keep-everything, length-count_where, not-any,
}
use phone_control.Store.{LocationEvent, Db}
use phone_control.Maintenance.{
  RetentionPolicy, Month, Archive, cutoff, is_stored_in, drop_partitions, purge_batches, batch_size,
  is_outdated, purge_stricter, max_location_days, is_old_geofence_event, is_old_security_event,
  is_old_scan, purge_events, purge_all_events, apply_retention, retain, retain_if_any,
}
use phone_control.Maintenance.Purge.{purge_batches_exact}

-- The rows that no test of a list removes, one test after the other or all at once.
keep-any :
    {A B : Type 0} (t : B → A → Bool) (b : B) (bs : List B) (xs : List A)
    → keep (λ x. not (any (λ c. t c x) bs)) (keep (λ x. not (t b x)) xs)
      ≡ keep (λ x. not (any (λ c. t c x) (b ∷ bs))) xs
keep-any t b bs xs =
    keep-keep (λ x. not (any (λ c. t c x) bs)) (λ x. not (t b x)) xs
    ∙ keep-same _ _ (not-any t b bs) xs

-- A month that ended before the limit, and stores the row.
abbrev pub is_dropped : Archive → (limit : ℕ) → Month → LocationEvent → Bool
is_dropped archive limit m r = not (ltb limit (archive.end_of_month m)) && is_stored_in archive m r

drop_partitions_exact :
    (archive : Archive) (limit : ℕ) (ms : List Month) (rows : List LocationEvent)
    → drop_partitions archive limit ms rows
      ≡ keep (λ r. not (any (λ m. is_dropped archive limit m r) ms)) rows
unfolding drop_partitions
drop_partitions_exact archive limit [] rows = sym (keep-everything rows)
drop_partitions_exact archive limit (m ∷ ms) rows =
    drop_partitions_exact archive limit ms _
    ∙ ap (keep (λ r. not (any (λ m. is_dropped archive limit m r) ms))) one
    ∙ keep-any (is_dropped archive limit) m ms rows
  where
    one :
        (if ltb limit (archive.end_of_month m)
          then rows
          else keep (λ r. not (is_stored_in archive m r)) rows)
        ≡ keep (λ r. not (is_dropped archive limit m r)) rows
    one = elim (Bool-cases (ltb limit (archive.end_of_month m))) [
      | inl later ↦ rw later (sym (keep-everything rows))
      | inr over ↦ rw over refl
    ]

-- A policy that is stricter than the longest one, and too old a row of its company.
abbrev pub is_stricter_out : (max now : ℕ) → RetentionPolicy → LocationEvent → Bool
is_stricter_out max now p r = not (leb max p.location_events_days) && is_outdated now p r

purge_stricter_exact :
    (max now : ℕ) (ps : List RetentionPolicy) (total : ℕ) (rows : List LocationEvent)
    → (deleted : ℕ) × (purge_stricter max now ps total rows
        ≡ some (keep (λ r. not (any (λ p. is_stricter_out max now p r) ps)) rows, deleted))
unfolding purge_stricter
purge_stricter_exact max now [] total rows =
    (total, ap (λ xs. some (xs, total)) (sym (keep-everything rows)))
purge_stricter_exact max now (p ∷ ps) total rows =
    elim (Bool-cases (leb max p.location_events_days)) [
      | inl longest ↦
          let (deleted, e) = purge_stricter_exact max now ps total rows in
          (deleted, rw (longest, purge_stricter) e)
      | inr stricter ↦
          let left = keep (λ r. not (is_outdated now p r)) rows in
          let count = count_where (is_outdated now p) rows in
          let run : purge_stricter max now (p ∷ ps) total rows
              ≡ purge_stricter max now ps (total + (0 + count)) left =
            rw (stricter, purge_stricter) (rw (purged p rows) refl) in
          let (deleted, e) = purge_stricter_exact max now ps (total + (0 + count)) left in
          (deleted, run ∙ e ∙ ap (λ xs. some (xs, deleted)) (joined p ps rows stricter))
    ]
  where
    purged :
        (p : RetentionPolicy) (rows : List LocationEvent)
        → purge_batches (is_outdated now p) batch_size (suc (length rows)) 0 rows
          ≡ some
              (keep (λ r. not (is_outdated now p r)) rows, 0 + count_where (is_outdated now p) rows)
    purged p rows =
        purge_batches_exact (is_outdated now p) 9999 (suc (length rows)) 0 rows
          (omega (arith, length-count_where (is_outdated now p) rows))

    joined :
        (p : RetentionPolicy) (ps : List RetentionPolicy) (rows : List LocationEvent)
        → leb max p.location_events_days ≡ false
        → keep
            (λ r. not (any (λ p. is_stricter_out max now p r) ps))
            (keep (λ r. not (is_outdated now p r)) rows)
          ≡ keep (λ r. not (any (λ p. is_stricter_out max now p r) (p ∷ ps))) rows
    joined p ps rows stricter =
        ap (keep (λ r. not (any (λ p. is_stricter_out max now p r) ps)))
          (keep-same _ _ (λ r. rw stricter refl) rows)
        ∙ keep-any (is_stricter_out max now) p ps rows

-- The tables of events, without the rows that are too old for a policy of their company.
abbrev pub without_old_events : (now : ℕ) → List RetentionPolicy → Db → Db
without_old_events now ps db = record db {
  geofence_events =
      keep (λ e. not (any (λ p. is_old_geofence_event now p e) ps)) db.geofence_events;
  security_events =
      keep (λ e. not (any (λ p. is_old_security_event now p e) ps)) db.security_events;
  scan_events = keep (λ e. not (any (λ p. is_old_scan now p e) ps)) db.scan_events;
}

purge_all_events_exact :
    (now : ℕ) (ps : List RetentionPolicy) (db : Db)
    → purge_all_events now ps db ≡ without_old_events now ps db
unfolding purge_all_events
purge_all_events_exact now [] db =
    rw
      (
        keep-everything db.geofence_events,
        keep-everything db.security_events,
        keep-everything db.scan_events,
      )
      refl
purge_all_events_exact now (p ∷ ps) db =
    purge_all_events_exact now ps (purge_events now p db)
    ∙ rw
        (
          keep-any (is_old_geofence_event now) p ps db.geofence_events,
          keep-any (is_old_security_event now) p ps db.security_events,
          keep-any (is_old_scan now) p ps db.scan_events,
        )
        refl

-- The positions that stay.
abbrev pub is_retained : Archive → List RetentionPolicy → (now : ℕ) → LocationEvent → Bool
is_retained archive policies now r =
    let max = max_location_days policies in
    not (any (λ m. is_dropped archive (cutoff now max) m r) archive.partitions)
    && not (any (λ p. is_stricter_out max now p r) policies)

retain_exact :
    (archive : Archive) (policies : List RetentionPolicy) (now : ℕ) (db : Db)
    → retain archive policies now db
      ≡ some (
          without_old_events now policies (record db {
            location_events = keep (is_retained archive policies now) db.location_events;
          }))
retain_exact archive policies now db =
    let max = max_location_days policies in
    let limit = cutoff now max in
    let rows = drop_partitions archive limit archive.partitions db.location_events in
    let (deleted, e) = purge_stricter_exact max now policies 0 rows in
    let kept =
      ap (keep (λ r. not (any (λ p. is_stricter_out max now p r) policies)))
        (drop_partitions_exact archive limit archive.partitions db.location_events)
      ∙ keep-keep (λ r. not (any (λ p. is_stricter_out max now p r) policies))
          (λ r. not (any (λ m. is_dropped archive limit m r) archive.partitions))
          db.location_events in
    rw (retain, e)
      (ap some (purge_all_events_exact now policies _)
        ∙ ap (λ xs. some (without_old_events now policies (record db { location_events = xs })))
            kept)

-- With any policy, the daily deletion ends, and leaves of the positions those that are neither
-- stored in a partition that ended before the longest retention nor too old for a stricter
-- policy of their company, and of the events those that are not too old for one.
pub apply_retention_exact :
    (archive : Archive) (now : ℕ) (db : Db)
    → archive.policies ≢ []
    → apply_retention archive now db
      ≡ some (
          without_old_events now archive.policies (record db {
            location_events = keep (is_retained archive archive.policies now) db.location_events;
          }))
unfolding apply_retention
apply_retention_exact archive now db some_policy =
    chosen archive.policies some_policy ∙ retain_exact archive archive.policies now db
  where
    chosen :
        (ps : List RetentionPolicy)
        → ps ≢ []
        → retain_if_any archive ps now db ≡ retain archive ps now db
    chosen [] some_policy = absurd (some_policy refl)
    chosen (p ∷ ps) some_policy = refl
