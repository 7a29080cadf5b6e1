-- ===== src/Sync/Push/Positions.antt =====
-- What the positions of a batch come to: `insertLocations` of apps/api/src/sync/sync.service.ts.
use phone_control.Common.{
  ℕ, ◌≡◌, ◌∙◌, ap, sym, refl, inl, inr, true, false, ltb, any, Bool-cases, Bool, ◌&&◌, ◌||◌, List,
  [], ◌∷◌, Option, ◌==◌, arith, Option-cases, keep, map, count_where, is_some,
}
use phone_control.Common.Sort.{sort_by, count_where-sort_by}
use phone_control.Store.{Device, Session, LocationEvent, Error, new_id}
use phone_control.Rules.Schedule.{Calendar}
use phone_control.Sessions.{current_for_device}
use phone_control.Sync.Events.{SyncEvent, precedes, is_location}
use phone_control.Sync.Locations.{
  exceeds, exceeds_smallint, create_many, rows_of, report_mocked, follow_device, store_rows,
  insert_locations, latest_of,
}
use phone_control.Sync.Push.{push_locations}
use phone_control.Sync.Push.Returns.{
  Yields, then-Yields, Throws, then-Throws, Throws-then, create_many-Returns, create_many-Throws,
  report_mocked-Returns, follow_device-Returns,
}

-- How often an identifier stands in an answer.
abbrev pub times : ℕ → List ℕ → ℕ
times id = count_where (λ x. x == id)

abbrev pub has_position : SyncEvent → Bool
has_position e = is_some e.latitude && is_some e.longitude

abbrev pub is_positioned : ℕ → SyncEvent → Bool
is_positioned id e = has_position e && e.event_id == id

-- A position whose battery level its column does not hold.
abbrev pub overflows : SyncEvent → Bool
overflows e = has_position e && exceeds_smallint e.battery_level

abbrev pub spoils : SyncEvent → Bool
spoils e = is_location e && overflows e

pub any-keep :
    (events : List SyncEvent) → any overflows (keep is_location events) ≡ any spoils events
any-keep [] = refl
any-keep (e ∷ es) = elim (Bool-cases (is_location e)) [
  | inl here ↦ rw here (ap (λ b. overflows e || b) (any-keep es))
  | inr other ↦ rw other (any-keep es)
]

any-count :
    (p : SyncEvent → Bool) (events : List SyncEvent) → any p events ≡ ltb 0 (count_where p events)
any-count p [] = refl
any-count p (e ∷ es) = ground (arith, any-count p es)

pub any-sort :
    (p : SyncEvent → Bool) (events : List SyncEvent)
    → any p (sort_by precedes events) ≡ any p events
any-sort p events =
    any-count p (sort_by precedes events)
    ∙ ap (λ n. ltb 0 n) (count_where-sort_by precedes p events)
    ∙ sym (any-count p events)

abbrev pub event_ids : List LocationEvent → List ℕ
event_ids = map (λ r. r.event_id)

module _ (tolerance now : ℕ) (device : Device) (id : ℕ) where
  store_rows-Yields :
      (rows : List LocationEvent)
      → any exceeds rows ≡ false
      → Yields (λ ids. ids ≡ event_ids rows) (store_rows device now rows)
  unfolding store_rows
  store_rows-Yields [] fits db = ([], refl, refl)
  store_rows-Yields (r ∷ rows) fits db =
      then-Yields (create_many (r ∷ rows)) _ (create_many-Returns (r ∷ rows) fits)
        (λ c g.
          then-Yields (report_mocked device (r ∷ rows) now) _
            (report_mocked-Returns device (r ∷ rows) now)
            (λ a h.
              then-Yields (follow_device device (latest_of r rows) now) _
                (follow_device-Returns device (latest_of r rows) now)
                (λ b k d. (event_ids (r ∷ rows), refl, refl))))
        db

  store_rows-Throws :
      (rows : List LocationEvent)
      → any exceeds rows ≡ true
      → Throws Error.out_of_range (store_rows device now rows)
  unfolding store_rows
  store_rows-Throws [] over db = absurd (cc over)
  store_rows-Throws (r ∷ rows) over db =
      Throws-then Error.out_of_range (create_many (r ∷ rows)) _ (create_many-Throws (r ∷ rows) over)
        db

  rows_of-Yields :
      (session : Option Session) (events : List SyncEvent)
      → Yields
          (λ rows.
            (times id (event_ids rows) ≡ count_where (is_positioned id) events)
            × (any exceeds rows ≡ any overflows events))
          (rows_of tolerance device session now events)
  unfolding rows_of
  rows_of-Yields session [] db = ([], refl, (refl, refl))
  rows_of-Yields session (e ∷ es) db =
      let ih = rows_of-Yields session es in
      elim (Option-cases e.latitude) [
        | inl flat ↦ let r = ih db in rw (flat, rows_of) (r.0, r.1, (omega (arith, r.2.0), r.2.1))
        | inr (x, here) ↦ elim (Option-cases e.longitude) [
          | inl flat ↦
              let r = ih db in rw (here, flat, rows_of) (r.0, r.1, (omega (arith, r.2.0), r.2.1))
          | inr (y, there) ↦
              rw (here, there, rows_of)
                (then-Yields (rows_of tolerance device session now es) _ ih
                  (λ rows h d. (
                    _,
                    refl,
                    (omega (arith, h.0), ap (λ b. exceeds_smallint e.battery_level || b) h.1),
                  ))
                  (new_id db).1)
        ]
      ]

  insert_locations-Yields :
      (events : List SyncEvent)
      → any overflows events ≡ false
      → Yields
          (λ ids. times id ids ≡ count_where (is_positioned id) events)
          (insert_locations tolerance device events now)
  unfolding insert_locations
  insert_locations-Yields events fits db =
      then-Yields (rows_of tolerance device (current_for_device device.id db) now events) _
        (rows_of-Yields (current_for_device device.id db) events)
        (λ rows h d.
          let stored = store_rows-Yields rows (h.1 ∙ fits) d in
          (stored.0, stored.1, ap (times id) stored.2 ∙ h.0))
        db

  insert_locations-Throws :
      (events : List SyncEvent)
      → any overflows events ≡ true
      → Throws Error.out_of_range (insert_locations tolerance device events now)
  unfolding insert_locations
  insert_locations-Throws events over db =
      then-Throws Error.out_of_range
        (rows_of tolerance device (current_for_device device.id db) now events) _
        (rows_of-Yields (current_for_device device.id db) events)
        (λ rows h. store_rows-Throws rows (h.1 ∙ over)) db

  pub push_locations-Yields :
      (c : Calendar) (tenant : Option ℕ) (events : List SyncEvent)
      → any overflows events ≡ false
      → Yields
          (λ ids. times id ids ≡ count_where (is_positioned id) events)
          (push_locations c tenant tolerance now device events)
  unfolding push_locations
  push_locations-Yields c tenant [] fits db = ([], refl, refl)
  push_locations-Yields c tenant (e ∷ es) fits db = insert_locations-Yields (e ∷ es) fits db

  pub push_locations-Throws :
      (c : Calendar) (tenant : Option ℕ) (events : List SyncEvent)
      → any overflows events ≡ true
      → Throws Error.out_of_range (push_locations c tenant tolerance now device events)
  unfolding push_locations
  push_locations-Throws c tenant [] over db = absurd (cc over)
  push_locations-Throws c tenant (e ∷ es) over db = insert_locations-Throws (e ∷ es) over db
