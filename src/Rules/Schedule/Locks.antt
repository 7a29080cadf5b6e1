-- ===== src/Rules/Schedule/Locks.antt =====
-- `nextLockInstant` finds the first lock instant after a given one.
use phone_control.Common.{
  ℕ, zero, suc, ◌+◌, ◌≤◌, ◌<◌, ◌≡◌, ◌⊎◌, ◌↔◌, refl, Option, none, some, arith,
}
use phone_control.Rules.Schedule.{
  Calendar, DepotSchedule, Checked, ok, misconfigured, operational_day_of, lock_instant_on,
  next_lock_from, next_lock_instant,
}

-- No lock instant, or one that is not after `from`.
abbrev pub NotAfter : ℕ → Checked (Option ℕ) → Type 0
NotAfter from (ok none) = Unit {0}
NotAfter from (ok (some t)) = t ≤ from
NotAfter from (misconfigured e) = ⊥

module _ (c : Calendar) (s : DepotSchedule) where
  -- The `n` days from `day` on have no lock instant after `from`.
  abbrev pub QuietDays : ℕ → ℕ → ℕ → Type 0
  QuietDays from day zero = Unit {0}
  QuietDays from day (suc n) = NotAfter from (lock_instant_on c s day) × QuietDays from (day + 1) n

  -- `t` is after `from`, and the lock instant of the first day, out of `n` from `day` on, whose lock
  -- instant is after `from`.
  abbrev pub IsFirst : ℕ → ℕ → ℕ → ℕ → Type 0
  IsFirst from day zero t = ⊥
  IsFirst from day (suc n) t =
      ((lock_instant_on c s day ≡ ok (some t)) × (from < t))
      ⊎ (NotAfter from (lock_instant_on c s day) × IsFirst from (day + 1) n t)

  next_lock_from-some :
      (n from day t : ℕ) → next_lock_from c s n from day ≡ ok (some t) → IsFirst from day n t
  unfolding next_lock_from
  next_lock_from-some zero from day t e = ground arith
  next_lock_from-some (suc n) from day t e = ground (arith, next_lock_from-some n from (day + 1) t)

  next_lock_from_first :
      (n from day t : ℕ) → IsFirst from day n t → next_lock_from c s n from day ≡ ok (some t)
  unfolding next_lock_from
  next_lock_from_first zero from day t h = absurd h
  next_lock_from_first (suc n) from day t h =
      ground (arith, next_lock_from_first n from (day + 1) t)

  next_lock_from-none :
      (n from day : ℕ) → next_lock_from c s n from day ≡ ok none → QuietDays from day n
  unfolding next_lock_from
  next_lock_from-none zero from day e = tt
  next_lock_from-none (suc n) from day e = ground (arith, next_lock_from-none n from (day + 1))

  next_lock_from_quiet :
      (n from day : ℕ) → QuietDays from day n → next_lock_from c s n from day ≡ ok none
  unfolding next_lock_from
  next_lock_from_quiet zero from day e = refl
  next_lock_from_quiet (suc n) from day e = ground (arith, next_lock_from_quiet n from (day + 1))

  next_lock_instant-next_lock_from :
      (from horizon day : ℕ)
      → operational_day_of c s from ≡ ok day
      → next_lock_instant c s from horizon ≡ next_lock_from c s (suc horizon) from day
  unfolding next_lock_instant
  next_lock_instant-next_lock_from from horizon day e = ground arith

  -- From an instant of operational day `day`, `next_lock_instant` returns `t` exactly when `t` is
  -- after `from` and is the lock instant of the first of the days `day` to `day + horizon` whose
  -- lock instant is after `from`; it returns nothing exactly when none of these days has one.
  pub next_lock_instant_iff :
      (from horizon day t : ℕ)
      → operational_day_of c s from ≡ ok day
      → ((next_lock_instant c s from horizon ≡ ok (some t)) ↔ IsFirst from day (suc horizon) t)
        × ((next_lock_instant c s from horizon ≡ ok none) ↔ QuietDays from day (suc horizon))
  next_lock_instant_iff from horizon day t e =
      rw (next_lock_instant-next_lock_from from horizon day e) (
        (
          next_lock_from-some (suc horizon) from day t,
          next_lock_from_first (suc horizon) from day t,
        ),
        (next_lock_from-none (suc horizon) from day, next_lock_from_quiet (suc horizon) from day),
      )
