-- ===== src/Commands/Selection.antt =====
-- The rows that a delivery selects, and what marking them leaves as it was.
use phone_control.Common.{
  ℕ, zero, suc, ◌≡◌, Bool, true, false, List, [], ◌∷◌, arith, refl, inl, inr, if◌then◌else◌,
  Bool-cases, ◌==◌, ==_iff, All, keep, update_where,
}
use phone_control.Common.Sort.{
  sort_by, take, IsSorted, All-sort_by, All-take, All-keep, update_where-map,
}
use phone_control.Common.Ids.{
  Within, All-of_Within, All-Within, Within-keep, DistinctIds, DistinctIds-eq, DistinctIds-map,
}
use phone_control.Store.{DeviceCommand}
use phone_control.Commands.{
  is_stale, is_deliverable, expire, mark_sent, goes_before, select_pending, has_id_in,
}

pub take-IsSorted {ℓ} :
    {A : Type ℓ} (before : A → A → Bool) (n : ℕ) (xs : List A)
    → IsSorted before xs
    → IsSorted before (take n xs)
take-IsSorted before zero xs h = tt
take-IsSorted before (suc n) [] h = tt
take-IsSorted before (suc zero) (x ∷ []) h = tt
take-IsSorted before (suc (suc n)) (x ∷ []) h = tt
take-IsSorted before (suc zero) (x ∷ y ∷ ys) h = tt
take-IsSorted before (suc (suc n)) (x ∷ y ∷ ys) h = (h.0, take-IsSorted before (suc n) (y ∷ ys) h.1)

pub goes_before_asym : (a b : DeviceCommand) → goes_before b a ≡ true → goes_before a b ≡ false
goes_before_asym a b h = ground arith

-- The rows with their identifiers.
abbrev pub HasIds : List DeviceCommand → Type 0
HasIds = DistinctIds λ c. c.id

module _ (device now : ℕ) where
  -- The table once the expired commands are marked.
  abbrev pub swept : List DeviceCommand → List DeviceCommand
  swept = update_where (is_stale device now) expire

  pub swept_fresh : (cs : List DeviceCommand) → All (λ c. is_stale device now c ≡ false) (swept cs)
  swept_fresh [] = tt
  swept_fresh (c ∷ cs) = (ground arith, swept_fresh cs)

  pub swept-HasIds : (cs : List DeviceCommand) → HasIds cs → HasIds (swept cs)
  swept-HasIds cs h =
      rw (update_where-map (is_stale device now) expire cs)
        (DistinctIds-map (λ c. c.id) _ cs (λ c. ground arith) h)

  abbrev pub Selected : List DeviceCommand → DeviceCommand → Type 0
  Selected cs c = Within c cs × (is_deliverable device now c ≡ true)

  pub select_pending-Selected :
      (cs : List DeviceCommand) → All (Selected cs) (select_pending device now cs)
  unfolding select_pending
  select_pending-Selected cs =
      let live = keep (is_deliverable device now) cs in
      let sound : All (Selected cs) live = All-of_Within (Selected cs) live (λ c w. (
        Within-keep (is_deliverable device now) cs c w,
        All-Within _ live c (All-keep (is_deliverable device now) cs) w,
      )) in
      All-take _ 50 (sort_by goes_before live) (All-sort_by goes_before (Selected cs) live sound)

  -- A row whose identifier was selected is deliverable itself.
  pub deliverable_of_id :
      (cs selected : List DeviceCommand) (c : DeviceCommand)
      → HasIds cs
      → All (Selected cs) selected
      → Within c cs
      → has_id_in selected c ≡ true
      → is_deliverable device now c ≡ true
  deliverable_of_id cs [] c d s w h = cc
  deliverable_of_id cs (x ∷ xs) c d s w h = elim (Bool-cases (x.id == c.id)) [
    | inl same ↦
        let e = DistinctIds-eq (λ y. y.id) cs x c d s.0.0 w ((==_iff x.id c.id).0 same) in
        rw (← e) (s.0.1)
    | inr other ↦ deliverable_of_id cs xs c d s.1 w (rw other at h)
  ]

  abbrev pub marked : List DeviceCommand → DeviceCommand → DeviceCommand
  marked selected c = if has_id_in selected c then mark_sent now c else c

  pub marked-deliverable :
      (selected : List DeviceCommand) (c : DeviceCommand)
      → (has_id_in selected c ≡ true → is_deliverable device now c ≡ true)
      → is_deliverable device now (marked selected c) ≡ is_deliverable device now c
  marked-deliverable selected c h = elim (Bool-cases (has_id_in selected c)) [
    | inl e ↦ rw e (ground (arith, h e))
    | inr e ↦ rw e refl
  ]

  pub marked-fresh :
      (selected : List DeviceCommand) (c : DeviceCommand)
      → (has_id_in selected c ≡ true → is_deliverable device now c ≡ true)
      → is_stale device now c ≡ false
      → is_stale device now (marked selected c) ≡ false
  marked-fresh selected c h k = elim (Bool-cases (has_id_in selected c)) [
    | inl e ↦ rw e (ground (arith, h e))
    | inr e ↦ rw e k
  ]

  pub marked-order :
      (selected : List DeviceCommand) (a b : DeviceCommand)
      → goes_before (marked selected a) (marked selected b) ≡ goes_before a b
  marked-order selected a b = ground arith
