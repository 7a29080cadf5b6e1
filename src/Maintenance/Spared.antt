-- ===== src/Maintenance/Spared.antt =====
-- The deletion for one company takes nothing that another may keep.
use phone_control.Common.{
  ℕ, ◌<◌, ◌≤◌, ◌≡◌, ◌≢◌, ◌∙◌, refl, sym, ap, inl, inr, Bool, true, false, List, [], ◌∷◌, some, ltb,
  ◌==◌, ==_iff, any, Bool-cases, Option-cases, arith,
}
use mathlib.Core.Path.{subst}
use phone_control.Common.Ids.{Within, Within-keep_self, DistinctIds, DistinctIds-eq}
use phone_control.Store.{LocationEvent, Db}
use phone_control.Maintenance.{
  RetentionPolicy, Month, Archive, cutoff, same_month, is_stored_in, is_outdated, max_location_days,
  apply_retention,
}
use phone_control.Maintenance.Retained.{
  is_dropped, is_stricter_out, is_retained, apply_retention_exact,
}

no_test :
    {B : Type 0} (t : B → Bool) (bs : List B)
    → ((b : B) → Within b bs → t b ≡ false)
    → any t bs ≡ false
no_test t [] h = refl
no_test t (b ∷ bs) h = rw (h b (inl refl)) (no_test t bs (λ c w. h c (inr w)))

max_of_bound :
    (ps : List RetentionPolicy) (p : RetentionPolicy)
    → Within p ps
    → p.location_events_days ≤ max_location_days ps
max_of_bound [] p w = elim w [ ]
max_of_bound (q ∷ ps) p (inl e) = rw e (ground arith)
max_of_bound (q ∷ ps) p (inr w) = ground (arith, max_of_bound ps p w)

-- What PostgreSQL does: a row is stored in the partition of its month.
abbrev pub IsRouted : Archive → Type 0
IsRouted archive =
    (r : LocationEvent) (m : Month)
    → archive.partition_of r ≡ some m
    → r.recorded_at < archive.end_of_month m

stored_before_end :
    (archive : Archive) (m : Month) (r : LocationEvent)
    → IsRouted archive
    → is_stored_in archive m r ≡ true
    → r.recorded_at < archive.end_of_month m
stored_before_end archive m r routed e = elim (Option-cases (archive.partition_of r)) [
  | inl default ↦ absurd (cc (rw (is_stored_in, default) at e))
  | inr (n, here) ↦
      let alike : same_month n m ≡ true = rw (is_stored_in, here) at e in
      let years : n.year ≡ m.year = ground arith in
      let months : n.month ≡ m.month = ground arith in
      let same : n ≡ m = cc (years, months) in routed r m (here ∙ ap some same)
]

not_dropped :
    (archive : Archive) (limit : ℕ) (m : Month) (r : LocationEvent)
    → IsRouted archive
    → limit ≤ r.recorded_at
    → is_dropped archive limit m r ≡ false
not_dropped archive limit m r routed recent = elim (Bool-cases (is_stored_in archive m r)) [
  | inr other ↦ rw (is_dropped, other) (ground arith)
  | inl here ↦
      let end = stored_before_end archive m r routed here in
      let later : ltb limit (archive.end_of_month m) ≡ true = ground (arith, recent, end) in
      rw (is_dropped, later) refl
]

not_purged :
    (max now : ℕ) (q : RetentionPolicy) (r : LocationEvent)
    → (q.company_id ≡ r.company_id → cutoff now q.location_events_days ≤ r.recorded_at)
    → is_stricter_out max now q r ≡ false
not_purged max now q r recent = elim (Bool-cases (r.company_id == q.company_id)) [
  | inr other ↦ rw (is_stricter_out, is_outdated, other) (ground arith)
  | inl same ↦
      let young = recent (sym ((==_iff r.company_id q.company_id).0 same)) in
      let kept : ltb r.recorded_at (cutoff now q.location_events_days) ≡ false =
        ground (arith, young) in
      rw (is_stricter_out, is_outdated, same, kept) (ground arith)
]

module _ (archive : Archive) (now : ℕ) (r : LocationEvent) (p : RetentionPolicy) where
  retained :
      IsRouted archive
      → DistinctIds (λ q. q.company_id) archive.policies
      → Within p archive.policies
      → p.company_id ≡ r.company_id
      → cutoff now p.location_events_days ≤ r.recorded_at
      → is_retained archive archive.policies now r ≡ true
  retained routed distinct within own recent =
      let max = max_location_days archive.policies in
      let below = max_of_bound archive.policies p within in
      let limit : cutoff now max ≤ r.recorded_at = omega (arith, below, recent) in
      let undropped =
        no_test (λ m. is_dropped archive (cutoff now max) m r) archive.partitions
          (λ m w. not_dropped archive (cutoff now max) m r routed limit) in
      let unpurged =
        no_test (λ q. is_stricter_out max now q r) archive.policies
          (λ q w. not_purged max now q r (λ same.
            let it =
              DistinctIds-eq (λ q. q.company_id) archive.policies p q distinct within w
                (own ∙ sym same) in
            subst (λ x. cutoff now x.location_events_days ≤ r.recorded_at) it recent)) in
      rw (undropped, unpurged) refl

  -- A position that is not too old for the policy of its company is still there after the daily
  -- deletion, whatever the policies of the other companies, if each company has one policy and
  -- each partition holds rows from before its end only.
  pub apply_retention_spares :
      (db : Db)
      → IsRouted archive
      → DistinctIds (λ q. q.company_id) archive.policies
      → Within p archive.policies
      → p.company_id ≡ r.company_id
      → cutoff now p.location_events_days ≤ r.recorded_at
      → Within r db.location_events
      → (db' : Db) × (apply_retention archive now db ≡ some db') × Within r db'.location_events
  apply_retention_spares db routed distinct within own recent there = (
    _,
    apply_retention_exact archive now db (some_of archive.policies within),
    Within-keep_self (is_retained archive archive.policies now) db.location_events r there
        (retained routed distinct within own recent),
  )
    where
      some_of : (ps : List RetentionPolicy) → Within p ps → ps ≢ []
      some_of [] w = elim w [ ]
      some_of (q ∷ ps) w = λ e. cc e
