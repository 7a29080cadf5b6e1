-- ===== src/Commands/Delivery.antt =====
-- What a phone receives from the queue.
use phone_control.Common.{
  ℕ, zero, suc, ◌≡◌, ◌≢◌, ◌≤◌, ◌<◌, ◌⊎◌, ◌↔◌, inl, inr, Bool-cases, true, false, List, [], ◌∷◌, map,
  arith, refl, ap, ◌∙◌, length, All, keep,
}
use phone_control.Common.Sort.{
  All-of_sort_by, sort_by, take, IsSorted, sort_by-IsSorted, length-take-le, map-sort_by, map-take,
  update_where-map,
}
use phone_control.Common.Ids.{
  All-of_Within, All-Within, keep-map-All, update_where-none, All-map, Within, Within-keep_self,
}
use phone_control.Store.Enums.{CommandStatus}
use phone_control.Store.{DeviceCommand, Db, done}
use phone_control.Commands.{
  is_stale, is_deliverable, expire, mark_sent, goes_before, select_pending, has_id_in, pull_pending,
}
use phone_control.Commands.Selection.{
  take-IsSorted, goes_before_asym, HasIds, swept, swept_fresh, swept-HasIds,
  select_pending-Selected, deliverable_of_id, marked, marked-deliverable, marked-fresh,
  marked-order,
}

marked_ids :
    (device now : ℕ) (selected cs : List DeviceCommand)
    → map (λ c. c.id) (map (marked device now selected) cs) ≡ map (λ c. c.id) cs
marked_ids device now selected [] = refl
marked_ids device now selected (c ∷ cs) = ground (arith, marked_ids device now selected cs)

module _ (device now : ℕ) (cs : List DeviceCommand) (ids : HasIds cs) where
  abbrev selected : List DeviceCommand
  selected = select_pending device now cs

  abbrev delivered : List DeviceCommand
  delivered = map (marked device now selected) cs

  deliverable_if_selected :
      (c : DeviceCommand)
      → Within c cs
      → has_id_in selected c ≡ true
      → is_deliverable device now c ≡ true
  deliverable_if_selected c w h =
      deliverable_of_id device now cs selected c ids (select_pending-Selected device now cs) w h

  delivered_fresh :
      All (λ c. is_stale device now c ≡ false) cs
      → All (λ c. is_stale device now c ≡ false) delivered
  delivered_fresh fresh = All-map _ (marked device now selected) cs (
      All-of_Within _ cs (λ c w.
        marked-fresh device now selected c (deliverable_if_selected c w)
          (All-Within _ cs c fresh w)))

  -- The rows that are delivered again are those of the first delivery, marked.
  select_again : select_pending device now delivered ≡ map (marked device now selected) selected
  unfolding select_pending
  select_again =
      let g = marked device now selected in
      let live = keep (is_deliverable device now) cs in
      let same = keep-map-All (is_deliverable device now) g cs (
        All-of_Within _ cs
          (λ c w. marked-deliverable device now selected c (deliverable_if_selected c w))) in
      ap (λ r. take 50 (sort_by goes_before r)) same
      ∙ ap (take 50) (map-sort_by goes_before g (marked-order device now selected) live)
      ∙ map-take g 50 _

-- The answer of `pull_pending` and the commands that it leaves.
pull_pending_run :
    (device now : ℕ) (db : Db)
    → ((pull_pending device now db).0
        ≡ done (select_pending device now (swept device now db.commands)))
      × ((pull_pending device now db).1.commands
          ≡ map
              (marked device now (select_pending device now (swept device now db.commands)))
              (swept device now db.commands))
unfolding pull_pending
pull_pending_run device now db =
    (refl, update_where-map (has_id_in _) (mark_sent now) (swept device now db.commands))

-- A command that the phone must still be given.
abbrev pub Awaits : (device now : ℕ) → DeviceCommand → Type 0
Awaits device now c =
    (c.device_id ≡ device)
    × ((c.status ≡ CommandStatus.pending) ⊎ (c.status ≡ CommandStatus.sent))
    × (now ≤ c.expires_at)

-- Each command is at least as urgent as the next, and no younger where they are as urgent.
abbrev pub IsUrgentFirst : List DeviceCommand → Type 0
IsUrgentFirst [] = Unit
IsUrgentFirst (c ∷ []) = Unit
IsUrgentFirst (c ∷ d ∷ cs) =
    (d.priority ≤ c.priority)
    × (c.priority ≡ d.priority → c.created_at ≤ d.created_at)
    × IsUrgentFirst (d ∷ cs)

-- The phone has no command that waits and whose time has passed.
abbrev pub IsSwept : (device now : ℕ) → DeviceCommand → Type 0
IsSwept device now c =
    c.device_id ≡ device
    → c.expires_at < now
    → (c.status ≢ CommandStatus.pending) × (c.status ≢ CommandStatus.sent)

sorted-IsUrgentFirst : (cs : List DeviceCommand) → IsSorted goes_before cs → IsUrgentFirst cs
sorted-IsUrgentFirst [] h = tt
sorted-IsUrgentFirst (c ∷ []) h = tt
sorted-IsUrgentFirst (c ∷ d ∷ cs) h =
    (ground (arith, h.0), λ same. ground (arith, h.0), sorted-IsUrgentFirst (d ∷ cs) h.1)

fresh-IsSwept :
    (device now : ℕ) (cs : List DeviceCommand)
    → All (λ c. is_stale device now c ≡ false) cs
    → All (IsSwept device now) cs
fresh-IsSwept device now [] h = tt
fresh-IsSwept device now (c ∷ cs) h = (ground (arith, h.0), fresh-IsSwept device now cs h.1)

deliverable_iff :
    (device now : ℕ) (c : DeviceCommand)
    → (is_deliverable device now c ≡ true) ↔ Awaits device now c
deliverable_iff device now c = ground arith

-- The sweep touches no command that awaits.
unswept :
    (device now : ℕ) (c : DeviceCommand) (cs : List DeviceCommand)
    → is_deliverable device now c ≡ true
    → Within c (swept device now cs)
    → Within c cs
unswept device now c [] h w = w
unswept device now c (d ∷ cs) h (inr w) = inr (unswept device now c cs h w)
unswept device now c (d ∷ cs) h (inl e) = elim (Bool-cases (is_stale device now d)) [
  | inr fresh ↦ inl (rw fresh at e)
  | inl stale ↦
      let expired = rw stale at e in
      absurd (ground (arith, h, ap (λ x. is_deliverable device now x) expired))
]

Within-swept :
    (device now : ℕ) (c : DeviceCommand) (cs : List DeviceCommand)
    → is_deliverable device now c ≡ true
    → Within c cs
    → Within c (swept device now cs)
Within-swept device now c [] h w = w
Within-swept device now c (d ∷ cs) h (inr w) = inr (Within-swept device now c cs h w)
Within-swept device now c (d ∷ cs) h (inl e) =
    let fresh : is_stale device now d ≡ false = rw (← e) (ground arith) in inl (rw fresh e)

-- An entry is among the first, or these are as many as asked for.
Within-take :
    {A : Type 0} (n : ℕ) (xs : List A) (x : A)
    → Within x xs
    → Within x (take n xs) ⊎ (length (take n xs) ≡ n)
Within-take zero xs x w = inr refl
Within-take (suc n) [] x w = inl w
Within-take (suc n) (y ∷ ys) x (inl e) = inl (inl e)
Within-take (suc n) (y ∷ ys) x (inr w) = elim (Within-take n ys x w) [
  | inl v ↦ inl (inr v)
  | inr full ↦ inr (ap suc full)
]

select_pending-all :
    (device now : ℕ) (table : List DeviceCommand) (c : DeviceCommand)
    → is_deliverable device now c ≡ true
    → Within c table
    → let cs = select_pending device now table in Within c cs ⊎ (length cs ≡ 50)
unfolding select_pending
select_pending-all device now table c h w =
    let live = keep (is_deliverable device now) table in
    let sorted = sort_by goes_before live in
    let Chosen : DeviceCommand → Type 0 =
      λ x. Within x (take 50 sorted) ⊎ (length (take 50 sorted) ≡ 50) in
    All-Within Chosen live c
      (All-of_sort_by goes_before Chosen live
        (All-of_Within Chosen sorted (λ x v. Within-take 50 sorted x v)))
      (Within-keep_self (is_deliverable device now) table c w h)

-- A phone receives at most fifty commands, which are its own commands in the queue that are pending
-- or sent and whose time has not passed: all of them, if they are fewer than fifty. They come the
-- most urgent first and among equals the oldest first. Afterwards no command of the phone whose time
-- has passed is pending or sent.
pub pull_pending_deliverable :
    (device now : ℕ) (db : Db)
    → HasIds db.commands
    → (cs : List DeviceCommand) × ((pull_pending device now db).0 ≡ done cs)
      × (length cs ≤ 50)
      × All (λ c. Within c db.commands × Awaits device now c) cs
      × All (λ c. Awaits device now c → Within c cs ⊎ (length cs ≡ 50)) db.commands
      × IsUrgentFirst cs
      × All (IsSwept device now) (pull_pending device now db).1.commands
unfolding select_pending
pull_pending_deliverable device now db ids =
    let (answer, left) = pull_pending_run device now db in
    let table = swept device now db.commands in
    let live = keep (is_deliverable device now) table in
    let sorted = sort_by goes_before live in
    let chosen = select_pending-Selected device now table in
    let fresh =
      delivered_fresh device now table (swept-HasIds device now db.commands ids)
        (swept_fresh device now db.commands) in
    (
      take 50 sorted,
      answer,
      length-take-le 50 sorted,
      All-of_Within _ (take 50 sorted) (λ c w.
          let (within, ready) = All-Within _ (take 50 sorted) c chosen w in
          (unswept device now c db.commands ready within, (deliverable_iff device now c).0 ready)),
      All-of_Within _ db.commands (λ c w awaits.
          let ready = (deliverable_iff device now c).1 awaits in
          select_pending-all device now table c ready
            (Within-swept device now c db.commands ready w)),
      sorted-IsUrgentFirst (take 50 sorted) (
          take-IsSorted goes_before 50 sorted (sort_by-IsSorted goes_before goes_before_asym live)),
      rw left (fresh-IsSwept device now _ fresh),
    )

-- A phone that asks again at the same instant, its first answer lost, receives the same commands in
-- the same order: delivery does not take a command out of the queue.
pub pull_pending_again :
    (device now : ℕ) (db : Db)
    → HasIds db.commands
    → (cs again : List DeviceCommand) × ((pull_pending device now db).0 ≡ done cs)
      × ((pull_pending device now (pull_pending device now db).1).0 ≡ done again)
      × (map (λ c. c.id) again ≡ map (λ c. c.id) cs)
pull_pending_again device now db ids =
    let (answer, left) = pull_pending_run device now db in
    let table = swept device now db.commands in
    let table_ids = swept-HasIds device now db.commands ids in
    let cs = select_pending device now table in
    let fresh = delivered_fresh device now table table_ids (swept_fresh device now db.commands) in
    let unswept = update_where-none (is_stale device now) expire _ fresh in
    (
      cs,
      map (marked device now cs) cs,
      answer,
      (pull_pending_run device now (pull_pending device now db).1).0
          ∙ ap (λ t. done (select_pending device now (swept device now t))) left
          ∙ ap (λ t. done (select_pending device now t)) unswept
          ∙ ap done (select_again device now table table_ids),
      marked_ids device now cs cs,
    )
