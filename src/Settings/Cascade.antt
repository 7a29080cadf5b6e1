-- ===== src/Settings/Cascade.antt =====
-- Which row decides.
use mathlib.Core.Path.{subst}
use phone_control.Common.{
  ℕ, ◌+◌, ◌≡◌, ◌≤◌, ◌⊎◌, ◌↔◌, Bool, not, ◌&&◌, ◌||◌, is_some, inl, inr, none, some, ap, ◌∙◌, ◌==◌,
  ==_iff, Option-cases, List, [], ◌∷◌, Option, refl, sym, arith, All, keep, true, false, ltb, ◌≢◌,
  Bool-cases,
}
use phone_control.Common.Sort.{
  sort_by, insert_by, IsSorted, sort_by-IsSorted, All-sort_by, All-of_sort_by, All-keep,
}
use phone_control.Common.Ids.{Within, All-of_Within, All-Within, Within-keep, Within-keep_self}
use phone_control.Settings.{
  NumericKey, numeric_keys, ResolvedSettings, DeviceSettings, default_settings, concerns, rank,
  ranks_before, is_this, apply_keys, apply_row, apply_rows, resolve_settings,
}

all_applied :
    (row resolved : NumericKey → ℕ) (key : NumericKey)
    → apply_keys numeric_keys row resolved key ≡ row key
unfolding apply_keys
all_applied row resolved NumericKey.location_interval_active_seconds = refl
all_applied row resolved NumericKey.location_interval_idle_seconds = refl
all_applied row resolved NumericKey.location_min_distance_meters = refl
all_applied row resolved NumericKey.heartbeat_interval_seconds = refl
all_applied row resolved NumericKey.sync_interval_seconds = refl
all_applied row resolved NumericKey.offline_auth_max_duration_minutes = refl
all_applied row resolved NumericKey.offline_cache_max_age_minutes = refl
all_applied row resolved NumericKey.session_max_duration_minutes = refl
all_applied row resolved NumericKey.battery_alert_threshold = refl
all_applied row resolved NumericKey.offline_alert_delay_minutes = refl
all_applied row resolved NumericKey.gps_accuracy_threshold_meters = refl
all_applied row resolved NumericKey.geofence_confirmation_seconds = refl
all_applied row resolved NumericKey.geofence_confirmation_samples = refl

-- The row `w` is of the highest rank, and alone decides all numbers and the flag.
abbrev pub Decides : List DeviceSettings → ResolvedSettings → DeviceSettings → Type 0
Decides rows resolved w =
    Within w rows
    × All (λ r. rank r ≤ rank w) rows
    × ((key : NumericKey) → resolved.numeric key ≡ w.numeric key)
    × (resolved.offline_auth_enabled ≡ w.offline_auth_enabled)

le_through : (a b c : ℕ) → ltb b a ≡ false → b ≤ c → a ≤ c
le_through a b c h k = ground arith

apply_rows-Decides :
    (r : DeviceSettings) (rs : List DeviceSettings) (resolved : ResolvedSettings)
    → IsSorted ranks_before (r ∷ rs)
    → (w : DeviceSettings) × Decides (r ∷ rs) (apply_rows (r ∷ rs) resolved) w
unfolding apply_rows apply_row
apply_rows-Decides r [] resolved sorted =
    (r, (inl refl, (omega arith, tt), all_applied r.numeric resolved.numeric, refl))
apply_rows-Decides r (s ∷ ss) resolved sorted =
    let (w, (within, top, numeric, flag)) =
      apply_rows-Decides s ss (apply_row r resolved) sorted.1 in
    (w, (inr within, (le_through (rank r) (rank s) (rank w) sorted.0 top.0, top), numeric, flag))

ltb_asym : (a b : ℕ) → ltb a b ≡ true → ltb b a ≡ false
ltb_asym a b h = ground arith

abbrev pub total_version : List DeviceSettings → ℕ
total_version [] = 0
total_version (r ∷ rs) = r.version + total_version rs

apply_rows-version :
    (rows : List DeviceSettings) (resolved : ResolvedSettings)
    → (apply_rows rows resolved).version ≡ resolved.version + total_version rows
unfolding apply_rows apply_row
apply_rows-version [] resolved = omega arith
apply_rows-version (r ∷ rs) resolved = omega (arith, apply_rows-version rs (apply_row r resolved))

total_version-insert_by :
    (r : DeviceSettings) (rows : List DeviceSettings)
    → total_version (insert_by ranks_before r rows) ≡ r.version + total_version rows
unfolding insert_by
total_version-insert_by r [] = refl
total_version-insert_by r (s ∷ ss) = elim (Bool-cases (ranks_before s r)) [
  | inl e ↦ rw e (omega (arith, total_version-insert_by r ss))
  | inr e ↦ rw e refl
]

total_version-sort_by :
    (rows : List DeviceSettings) → total_version (sort_by ranks_before rows) ≡ total_version rows
unfolding sort_by
total_version-sort_by [] = refl
total_version-sort_by (r ∷ rs) =
    omega (arith, total_version-insert_by r (sort_by ranks_before rs), total_version-sort_by rs)

ranks_before_asym : (x y : DeviceSettings) → ranks_before y x ≡ true → ranks_before x y ≡ false
ranks_before_asym x y h = ltb_asym (rank y) (rank x) h

empty_of_insert :
    (r : DeviceSettings) (rows : List DeviceSettings) → insert_by ranks_before r rows ≢ []
unfolding insert_by
empty_of_insert r [] e = cc e
empty_of_insert r (s ∷ ss) e = elim (Bool-cases (ranks_before s r)) [
  | inl h ↦ cc (rw h at e)
  | inr h ↦ cc (rw h at e)
]

empty_of_sort : (rows : List DeviceSettings) → sort_by ranks_before rows ≡ [] → rows ≡ []
unfolding sort_by
empty_of_sort [] e = refl
empty_of_sort (r ∷ rs) e = absurd (empty_of_insert r (sort_by ranks_before rs) e)

-- What the rows, in some order, are resolved to.
abbrev pub IsResolved : List DeviceSettings → ResolvedSettings → Type 0
IsResolved rows resolved =
    ((rows ≡ []) × (resolved ≡ default_settings)) ⊎ ((w : DeviceSettings) × Decides rows resolved w)

sorted-IsResolved :
    (rows sorted : List DeviceSettings)
    → sort_by ranks_before rows ≡ sorted
    → IsResolved rows (apply_rows sorted default_settings)
unfolding apply_rows
sorted-IsResolved rows [] e = inl (empty_of_sort rows e, refl)
sorted-IsResolved rows (r ∷ rs) e =
    let ordered =
      subst (IsSorted ranks_before) e (sort_by-IsSorted ranks_before ranks_before_asym rows) in
    let (w, (within, top, numeric, flag)) = apply_rows-Decides r rs default_settings ordered in
    let kept =
      subst (All (λ x. Within x rows)) e
        (All-sort_by ranks_before (λ x. Within x rows) rows (All-of_Within _ rows (λ x v. v))) in
    inr (
      w,
      (
        All-Within (λ x. Within x rows) (r ∷ rs) w kept within,
        All-of_sort_by ranks_before (λ x. rank x ≤ rank w) rows
            (subst (All (λ x. rank x ≤ rank w)) (sym e) top),
        numeric,
        flag,
      ),
    )

-- The row has the identifier that the call is about.
abbrev pub Names : Option ℕ → Option ℕ → Type 0
Names asked column = (id : ℕ) × (asked ≡ some id) × (column ≡ some id)

-- A row of the company that is for the phone, for the depot and no phone, or for the whole company.
abbrev pub InScope : (company : ℕ) (device depot : Option ℕ) → DeviceSettings → Type 0
InScope company device depot r =
    (r.company_id ≡ company)
    × (Names device r.device_id
        ⊎ ((Names depot r.depot_id × (r.device_id ≡ none))
            ⊎ ((r.device_id ≡ none) × (r.depot_id ≡ none))))

-- A row of a phone gives way only to another of a phone, and one of a depot only to a row of a phone
-- or of a depot.
abbrev pub GivesWay : (winner r : DeviceSettings) → Type 0
GivesWay winner r =
    (r.device_id ≢ none → winner.device_id ≢ none)
    × (r.depot_id ≢ none → (winner.device_id ≡ none) → winner.depot_id ≢ none)

-- One row in scope gives every number and the flag, and the others in scope give way to it.
abbrev pub IsDecidedBy :
    (table : List DeviceSettings) (company : ℕ) (device depot : Option ℕ)
    → ResolvedSettings
    → DeviceSettings
    → Type 0
IsDecidedBy table company device depot resolved winner =
    Within winner table
    × InScope company device depot winner
    × All (λ r. InScope company device depot r → GivesWay winner r) table
    × ((key : NumericKey) → resolved.numeric key ≡ winner.numeric key)
    × (resolved.offline_auth_enabled ≡ winner.offline_auth_enabled)

is_this_iff : (asked column : Option ℕ) → (is_this asked column ≡ true) ↔ Names asked column
is_this_iff none column = (λ h. cc h, λ h. cc (h.1))
is_this_iff (some id) none = (λ h. cc h, λ h. cc (h.2))
is_this_iff (some id) (some found) = (
  λ h. (id, refl, ap some ((==_iff found id).0 h)),
  λ h.
      let asked : id ≡ h.0 = cc (h.1) in
      let column : found ≡ h.0 = cc (h.2) in (==_iff found id).1 (column ∙ sym asked),
)

and_false : (b : Bool) → (b && false) ≡ false
and_false true = refl
and_false false = refl

and_split : (a b : Bool) → (a && b) ≡ true → (a ≡ true) × (b ≡ true)
and_split true b h = (refl, h)
and_split false b h = absurd (cc h)

columns_iff :
    (P S : Type 0) (mine here : Bool) (phone site : Option ℕ)
    → ((mine ≡ true) ↔ P)
    → ((here ≡ true) ↔ S)
    → ((mine || (here && not (is_some phone)) || (not (is_some phone) && not (is_some site)))
        ≡ true)
      ↔ (P ⊎ ((S × (phone ≡ none)) ⊎ ((phone ≡ none) × (site ≡ none))))
columns_iff P S true here phone site p q = (λ h. inl (p.0 refl), λ h. refl)
columns_iff P S false true none site p q = (λ h. inr (inl (q.0 refl, refl)), λ h. refl)
columns_iff P S false false none none p q = (λ h. inr (inr (refl, refl)), λ h. refl)
columns_iff P S false false none (some x) p q =
    (λ h. cc h, λ h. elim h [ inl a ↦ p.1 a | inr (inl (a, e)) ↦ q.1 a | inr (inr (e, f)) ↦ cc f ])
columns_iff P S false here (some x) site p q = (
  λ h. cc (rw (and_false here) at h),
  λ h. elim h [ inl a ↦ cc (p.1 a) | inr (inl (a, e)) ↦ cc e | inr (inr (e, f)) ↦ cc e ],
)

concerns_iff :
    (company : ℕ) (device depot : Option ℕ) (r : DeviceSettings)
    → (concerns company device depot r ≡ true) ↔ InScope company device depot r
concerns_iff company device depot r =
    let columns =
      columns_iff (Names device r.device_id) (Names depot r.depot_id) (is_this device r.device_id)
        (is_this depot r.depot_id) r.device_id r.depot_id (is_this_iff device r.device_id)
        (is_this_iff depot r.depot_id) in
    let own = ==_iff r.company_id company in
    (
      λ h.
          let (mine, rest) = and_split (r.company_id == company) _ h in
          (own.0 mine, columns.0 rest),
      λ h. rw (own.1 h.0) (columns.1 h.1),
    )

rank-GivesWay : (w r : DeviceSettings) → rank r ≤ rank w → GivesWay w r
rank-GivesWay w r h = (
  λ taken free. elim (Option-cases r.device_id) [
    | inl e ↦ taken e
    | inr (d, e) ↦ elim (Bool-cases (is_some w.depot_id)) [
      | inl k ↦ omega (arith, rw (free, e, k) at h)
      | inr k ↦ omega (arith, rw (free, e, k) at h)
    ]
  ],
  λ taken free gone. elim (Option-cases r.depot_id) [
    | inl e ↦ taken e
    | inr (d, e) ↦ elim (Bool-cases (is_some r.device_id)) [
      | inl k ↦ omega (arith, rw (free, gone, e, k) at h)
      | inr k ↦ omega (arith, rw (free, gone, e, k) at h)
    ]
  ],
)

-- The settings are the defaults when no row of the table is in scope; otherwise one row that is in
-- scope gives every number and the flag, and every other row in scope gives way to it: a row of the
-- phone goes before one of the depot, and that before one of the company. The version is the sum of
-- the versions of the rows in scope.
pub resolve_settings-IsResolved :
    (table : List DeviceSettings) (company : ℕ) (device depot : Option ℕ)
    → let resolved = resolve_settings table company device depot in
      ((All (λ r. ¬ InScope company device depot r) table × (resolved ≡ default_settings))
        ⊎ ((winner : DeviceSettings) × IsDecidedBy table company device depot resolved winner))
      × ((in_scope : DeviceSettings → Bool) × ((r : DeviceSettings)
            → (in_scope r ≡ true) ↔ InScope company device depot r)
          × (resolved.version ≡ total_version (keep in_scope table)))
unfolding resolve_settings
resolve_settings-IsResolved table company device depot =
    let p = concerns company device depot in
    let rows = keep p table in
    let scope : (r : DeviceSettings) → (p r ≡ true) ↔ InScope company device depot r =
      concerns_iff company device depot in
    (
      elim (sorted-IsResolved rows (sort_by ranks_before rows) refl) [
        | inl (empty, same) ↦ inl (
          All-of_Within _ table
              (λ r w h. subst (Within r) empty (Within-keep_self p table r w ((scope r).1 h))),
          same,
        )
        | inr (w, (within, top, numeric, flag)) ↦ inr (
          w,
          (
            Within-keep p table w within,
            (scope w).0 (All-Within _ rows w (All-keep p table) within),
            All-of_Within _ table (λ r v h.
                rank-GivesWay w r
                  (All-Within _ rows r top (Within-keep_self p table r v ((scope r).1 h)))),
            numeric,
            flag,
          ),
        )
      ],
      (
        p,
        scope,
        omega (
          arith,
          apply_rows-version (sort_by ranks_before rows) default_settings,
          total_version-sort_by rows,
        ),
      ),
    )
