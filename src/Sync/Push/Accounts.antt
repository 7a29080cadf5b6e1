-- ===== src/Sync/Push/Accounts.antt =====
-- Every event of a batch is answered, but the positions without coordinates.
use phone_control.Common.{
  ℕ, ◌+◌, ◌≡◌, ◌∙◌, ap, refl, inl, inr, true, false, any, Bool-cases, Bool, not, ◌&&◌, ◌||◌, List,
  [], ◌∷◌, Option, some, ◌==◌, arith, if◌then◌else◌, find_first, keep, count_where,
  count_where-append,
}
use phone_control.Common.Sort.{sort_by, count_where-sort_by}
use phone_control.Store.{Device, Depot, Db, Reply, done, raised, Error}
use phone_control.Rules.Schedule.{Calendar}
use phone_control.Sync.Events.{SyncEvent, precedes, is_location, depot_of}
use phone_control.Sync.Locations.{report_clock_skew}
use phone_control.Sync.Push.{
  SyncPushResult, note, handle_single, handle_each, push_locations, push_events, push,
}
use phone_control.Sync.Push.Returns.{
  Yields, then-Yields, Throws, then-Throws, Throws-then, report_clock_skew-Returns,
}
use phone_control.Sync.Push.Positions.{
  times, has_position, is_positioned, overflows, spoils, any-keep, any-sort, push_locations-Yields,
  push_locations-Throws,
}

-- How often an identifier is answered, in either way.
abbrev pub answers : ℕ → SyncPushResult → ℕ
answers id r = times id r.acked + times id r.rejected

abbrev pub has_event_id : ℕ → SyncEvent → Bool
has_event_id id e = e.event_id == id

answers-note :
    (c : Calendar) (tenant : Option ℕ) (tolerance now id event : ℕ) (reply : Reply (Unit {0}))
    (r : SyncPushResult)
    → answers id (note c tenant tolerance now event reply r)
      ≡ (if event == id then 1 else 0) + answers id r
answers-note c tenant tolerance now id event (done tt) r = omega arith
answers-note c tenant tolerance now id event (raised e) r = omega arith

module _ (c : Calendar) (tenant : Option ℕ) (tolerance now : ℕ) (device : Device) (id : ℕ) where
  handle_each-Yields :
      (depot : Option Depot) (events : List SyncEvent)
      → Yields
          (λ r. answers id r ≡ count_where (has_event_id id) events)
          (handle_each c tenant tolerance now device depot events)
  unfolding handle_each
  handle_each-Yields depot [] db = (_, refl, refl)
  handle_each-Yields depot (e ∷ es) db =
      let here = handle_single c tenant tolerance now device depot e db in
      then-Yields (handle_each c tenant tolerance now device depot es) _
        (handle_each-Yields depot es)
        (λ r h d. (
          _,
          refl,
          answers-note c tenant tolerance now id e.event_id here.0 r
              ∙ ap (λ n. (if e.event_id == id then 1 else 0) + n) h,
        ))
        here.1

  -- An event that is not a position, or has both coordinates.
  abbrev is_answered : SyncEvent → Bool
  is_answered e = (not (is_location e) || has_position e) && e.event_id == id

  count-split :
      (events : List SyncEvent)
      → count_where (has_event_id id) (keep (λ e. not (is_location e)) events)
          + count_where (is_positioned id) (keep is_location events)
        ≡ count_where is_answered events
  count-split [] = refl
  count-split (e ∷ es) = ground (arith, count-split es)

  push_events-Throws :
      (depot : Option Depot) (events ordered : List SyncEvent)
      → any overflows (keep is_location ordered) ≡ true
      → Throws Error.out_of_range (push_events c tenant tolerance now device depot events ordered)
  unfolding push_events
  push_events-Throws depot events ordered over =
      then-Throws Error.out_of_range
        (handle_each c tenant tolerance now device depot (keep (λ e. not (is_location e)) ordered))
        _ (handle_each-Yields depot (keep (λ e. not (is_location e)) ordered))
        (λ r h.
          Throws-then Error.out_of_range
            (push_locations c tenant tolerance now device (keep is_location ordered)) _
            (push_locations-Throws tolerance now device id c tenant (keep is_location ordered)
              over))

  push_events-Yields :
      (depot : Option Depot) (events ordered : List SyncEvent)
      → any overflows (keep is_location ordered) ≡ false
      → Yields
          (λ r. answers id r ≡ count_where is_answered ordered)
          (push_events c tenant tolerance now device depot events ordered)
  unfolding push_events
  push_events-Yields depot events ordered fits =
      then-Yields
        (handle_each c tenant tolerance now device depot (keep (λ e. not (is_location e)) ordered))
        _ (handle_each-Yields depot (keep (λ e. not (is_location e)) ordered))
        (λ r h.
          then-Yields (push_locations c tenant tolerance now device (keep is_location ordered)) _
            (push_locations-Yields tolerance now device id c tenant (keep is_location ordered) fits)
            (λ ids k.
              then-Yields (report_clock_skew tolerance device events now) _
                (report_clock_skew-Returns tolerance now device events)
                (λ a u d. (
                  _,
                  refl,
                  omega (
                    arith,
                    h,
                    k,
                    count-split ordered,
                    count_where-append (λ x. x == id) r.acked ids,
                  ),
                ))))

-- What a push comes to. If some position's battery level is out of range: the error of the database.
-- Otherwise an answer, with the identifier, as acknowledged or as rejected, as often as the batch
-- holds an event with it that is not a position or has both coordinates.
abbrev pub Accounts : (out_of_range : Bool) → ℕ → List SyncEvent → Reply SyncPushResult → Type 0
Accounts true id events reply = reply ≡ raised Error.out_of_range
Accounts false id events reply =
    (r : SyncPushResult) × (reply ≡ done r)
    × (answers id r
        ≡ count_where (λ e. (not (is_location e) || has_position e) && e.event_id == id) events)

-- A push of a known phone, the times of whose events are instants: if the battery level of some
-- position with both coordinates does not fit a SMALLINT, the push fails as a whole, and no event of
-- the batch is answered. Otherwise it answers, whichever of the other events fail, and answers the
-- identifier of an event, as acknowledged or as rejected, as often as the batch holds an event with
-- this identifier that is not a position or has both coordinates. A position without coordinates is
-- not answered.
pub push-Accounts :
    (c : Calendar) (tenant : Option ℕ) (tolerance now device_id id : ℕ) (events : List SyncEvent)
    (db : Db) (device : Device)
    → find_first (λ d. d.id == device_id) db.devices ≡ some device
    → Accounts (any spoils events) id events (push c tenant tolerance now device_id events db).0
unfolding push
push-Accounts c tenant tolerance now device_id id events db device found =
    let ordered = sort_by precedes events in
    let same = any-keep ordered ∙ any-sort spoils events in
    elim (Bool-cases (any spoils events)) [
      | inl over ↦
          rw (found, over, push)
            (push_events-Throws c tenant tolerance now device id (depot_of device db) events ordered
              (same ∙ over) db)
      | inr fits ↦
          let run =
            push_events-Yields c tenant tolerance now device id (depot_of device db) events ordered
              (same ∙ fits) db in
          rw (found, fits, push)
            (
              run.0,
              run.1,
              run.2
                  ∙ count_where-sort_by precedes (is_answered c tenant tolerance now device id)
                      events,
            )
    ]
