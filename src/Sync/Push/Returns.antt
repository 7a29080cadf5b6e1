-- ===== src/Sync/Push/Returns.antt =====
-- The parts of a push that never throw, and those that do.
use phone_control.Common.{
  ℕ, ◌≡◌, ap, refl, true, false, inl, inr, List, Option-cases, Bool-cases, any,
}
use phone_control.Store.{
  Device, LocationEvent, Db, Reply, done, raised, Error, M, continue, ◌>>=◌, skip,
}
use phone_control.Alerts.{RaiseAlertInput, raise, find_open, new_alert}
use phone_control.Alerts.Dedupe.{raise_known, raise_new}
use phone_control.Sync.Events.{SyncEvent, is_clock_suspect}
use phone_control.Sync.Reports.{raise_tampering}
use phone_control.Sync.Locations.{
  exceeds, create_many, report_mocked, follow_device, report_clock_skew, is_newer,
}

-- A handler that never throws, and whose answer satisfies `P`.
abbrev pub Yields : {A : Type 0} → (A → Type 0) → M A → Type 0
Yields {A} P m = (db : Db) → (a : A) × ((m db).0 ≡ done a) × P a

abbrev pub Returns : {A : Type 0} → M A → Type 0
Returns = Yields (λ a. Unit {0})

pub continue-Yields :
    {A B : Type 0} {Q : B → Type 0} (x : Reply A × Db) (f : A → M B) (a : A)
    → x.0 ≡ done a
    → Yields Q (f a)
    → (b : B) × ((continue x f).0 ≡ done b) × Q b
continue-Yields (done a', db) f a e h =
    let same : a ≡ a' = cc e in let here = h db in (here.0, rw (← same) here.1, here.2)
continue-Yields (raised error, db) f a e h = absurd (cc e)

-- One step after another.
pub then-Yields :
    {A B : Type 0} {P : A → Type 0} {Q : B → Type 0} (m : M A) (f : A → M B)
    → Yields P m
    → ((a : A) → P a → Yields Q (f a))
    → Yields Q (m >>= f)
then-Yields m f h k db = let here = h db in continue-Yields (m db) f here.0 here.1 (k here.0 here.2)

-- A handler that always throws.
abbrev pub Throws : {A : Type 0} → Error → M A → Type 0
Throws e m = (db : Db) → (m db).0 ≡ raised e

continue-Throws :
    {A B : Type 0} (e : Error) (x : Reply A × Db) (f : A → M B) (a : A)
    → x.0 ≡ done a
    → Throws e (f a)
    → (continue x f).0 ≡ raised e
continue-Throws e (done a', db) f a h k = let same : a ≡ a' = cc h in rw (← same) (k db)
continue-Throws e (raised error, db) f a h k = absurd (cc h)

-- The second step throws, or the first.
pub then-Throws :
    {A B : Type 0} {P : A → Type 0} (e : Error) (m : M A) (f : A → M B)
    → Yields P m
    → ((a : A) → P a → Throws e (f a))
    → Throws e (m >>= f)
then-Throws e m f h k db =
    let here = h db in continue-Throws e (m db) f here.0 here.1 (k here.0 here.2)

stopped :
    {A B : Type 0} (e : Error) (x : Reply A × Db) (f : A → M B)
    → x.0 ≡ raised e
    → (continue x f).0 ≡ raised e
stopped e (done a, db) f h = absurd (cc h)
stopped e (raised error, db) f h = let same : error ≡ e = cc h in ap raised same

pub Throws-then :
    {A B : Type 0} (e : Error) (m : M A) (f : A → M B) → Throws e m → Throws e (m >>= f)
Throws-then e m f h db = stopped e (m db) f (h db)

pub create_many-Returns :
    (rows : List LocationEvent) → any exceeds rows ≡ false → Returns (create_many rows)
unfolding create_many
create_many-Returns rows fits db = rw (fits, create_many) (tt, refl, tt)

pub create_many-Throws :
    (rows : List LocationEvent)
    → any exceeds rows ≡ true
    → Throws Error.out_of_range (create_many rows)
unfolding create_many
create_many-Throws rows over db = rw (over, create_many) refl

pub raise-Returns : (input : RaiseAlertInput) → Returns (raise input)
raise-Returns input db =
    elim (Option-cases (find_open input.company_id input.dedupe_key db.alerts)) [
      | inl missing ↦
          (new_alert input (db.ids db.issued), ap (λ r. r.0) (raise_new input db missing), tt)
      | inr (a, found) ↦ (a, ap (λ r. r.0) (raise_known input db a found), tt)
    ]

pub report_mocked-Returns :
    (device : Device) (rows : List LocationEvent) (now : ℕ)
    → Returns (report_mocked device rows now)
unfolding report_mocked raise_tampering
report_mocked-Returns device rows now db = elim (Bool-cases (any (λ r. r.is_mock) rows)) [
  | inl some_mocked ↦
      rw (some_mocked, report_mocked)
        (then-Yields (raise _) (λ a. skip) (raise-Returns _) (λ a h d. (tt, refl, tt)) _)
  | inr none_mocked ↦ rw (none_mocked, report_mocked) (tt, refl, tt)
]

pub report_clock_skew-Returns :
    (tolerance now : ℕ) (device : Device) (events : List SyncEvent)
    → Returns (report_clock_skew tolerance device events now)
unfolding report_clock_skew raise_tampering
report_clock_skew-Returns tolerance now device events db =
    elim (Bool-cases (any (λ e. is_clock_suspect tolerance e.occurred_at now) events)) [
      | inl ahead ↦
          rw (ahead, report_clock_skew)
            (then-Yields (raise _) (λ a. skip) (raise-Returns _) (λ a h d. (tt, refl, tt)) _)
      | inr fine ↦ rw (fine, report_clock_skew) (tt, refl, tt)
    ]

pub follow_device-Returns :
    (device : Device) (r : LocationEvent) (now : ℕ) → Returns (follow_device device r now)
unfolding follow_device
follow_device-Returns device r now db = elim (Bool-cases (is_newer r device.last_location_at)) [
  | inl newer ↦ rw (newer, follow_device) (tt, refl, tt)
  | inr older ↦ rw (older, follow_device) (tt, refl, tt)
]
