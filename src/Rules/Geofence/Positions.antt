-- ===== src/Rules/Geofence/Positions.antt =====
-- What a classified position says of the true one.
use phone_control.Common.{ℕ, ◌+◌, ◌≤◌, ◌<◌, ◌≡◌, arith, ltb, Bool-cases, inl, inr}
use phone_control.Rules.Geofence.{
  FixClassification, classify_fix, inside_certain, outside_certain, undetermined,
}

-- The true distance of a phone that was measured at distance `d` with accuracy `a`.
abbrev pub IsWithin : (d a true_distance : ℕ) → Type 0
IsWithin d a t = (t ≤ d + a) × (d ≤ t + a)

-- What a classification says of the true distance.
abbrev pub Agrees : FixClassification → (r h true_distance : ℕ) → Type 0
Agrees inside_certain r h t = t < r
Agrees outside_certain r h t = r + h < t
Agrees undetermined r h t = Unit {0}

-- Every true distance that the measure allows is inside the radius when the fix is classified
-- inside, and beyond radius and hysteresis when it is classified outside.
pub classify_fix_sound : (d a r h t : ℕ) → IsWithin d a t → Agrees (classify_fix d a r h) r h t
unfolding classify_fix
classify_fix_sound d a r h t w = elim (Bool-cases (ltb (d + a) r)) [
  | inl near ↦ rw near (ground arith)
  | inr far ↦ elim (Bool-cases (ltb (r + h + a) d)) [
    | inl away ↦ rw (far, away) (ground arith)
    | inr unsure ↦ rw (far, unsure) tt
  ]
]

-- A phone whose true distance lies in the band from the radius to radius and hysteresis is never
-- classified as certain, whatever the measure is.
pub classify_fix_band :
    (d a r h t : ℕ) → IsWithin d a t → r ≤ t → t ≤ r + h → classify_fix d a r h ≡ undetermined
unfolding classify_fix
classify_fix_band d a r h t w low high = ground arith
