-- ===== src/Common/Sort.antt =====
-- A stable sort by a Boolean order: `Array.prototype.sort`, and ORDER BY with ties in table order.
use phone_control.Common.Tests.{if◌then◌else◌, Bool-cases}
use phone_control.Common.Lists.{length, count_where, All, keep, update_where}
use Prim.Native.Nat.{ℕ, zero, suc, ◌+◌, ◌≤◌}
use mathlib.Core.Path.{◌≡◌, refl, ap, ◌∙◌}
use mathlib.Core.Logic.{inl, inr}
use mathlib.Core.Bool.{Bool, true, false}
use mathlib.Core.List.{List, [], ◌∷◌, map}
use native.Mathlib.Omega.{arith}

abbrev pub take {ℓ} : {A : Type ℓ} → ℕ → List A → List A
take zero xs = []
take (suc n) [] = []
take (suc n) (x ∷ xs) = x ∷ take n xs

module _ {ℓ} {A : Type ℓ} (before : A → A → Bool) where
  -- `before y x`: `y` must stand in front of `x`. An equal entry goes behind.
  unfoldable pub insert_by : A → List A → List A
  insert_by x [] = x ∷ []
  insert_by x (y ∷ ys) = if before y x then y ∷ insert_by x ys else x ∷ y ∷ ys

  unfoldable pub sort_by : List A → List A
  unfolding insert_by
  sort_by [] = []
  sort_by (x ∷ xs) = insert_by x (sort_by xs)

  -- No entry must stand in front of the one before it.
  abbrev pub IsSorted : List A → Type 0
  IsSorted [] = Unit {0}
  IsSorted (x ∷ []) = Unit {0}
  IsSorted (x ∷ y ∷ ys) = (before y x ≡ false) × IsSorted (y ∷ ys)

  count_where-insert_by :
      (p : A → Bool) (x : A) (xs : List A)
      → count_where p (insert_by x xs) ≡ (if p x then 1 else 0) + count_where p xs
  unfolding insert_by
  count_where-insert_by p x [] = refl
  count_where-insert_by p x (y ∷ ys) = ground (arith, count_where-insert_by p x ys)

  pub count_where-sort_by :
      (p : A → Bool) (xs : List A) → count_where p (sort_by xs) ≡ count_where p xs
  unfolding sort_by
  count_where-sort_by p [] = refl
  count_where-sort_by p (x ∷ xs) =
      omega (arith, count_where-insert_by p x (sort_by xs), count_where-sort_by p xs)

  All-insert_by {κ} :
      (P : A → Type κ) (x : A) (xs : List A) → P x → All P xs → All P (insert_by x xs)
  unfolding insert_by
  All-insert_by P x [] h k = (h, k)
  All-insert_by P x (y ∷ ys) h k = elim (Bool-cases (before y x)) [
    | inl e ↦ rw e (k.0, All-insert_by P x ys h k.1)
    | inr e ↦ rw e (h, k)
  ]

  pub All-sort_by {κ} : (P : A → Type κ) (xs : List A) → All P xs → All P (sort_by xs)
  unfolding sort_by
  All-sort_by P [] h = h
  All-sort_by P (x ∷ xs) h = All-insert_by P x (sort_by xs) h.0 (All-sort_by P xs h.1)

  All-of_insert_by {κ} :
      (P : A → Type κ) (x : A) (xs : List A) → All P (insert_by x xs) → P x × All P xs
  unfolding insert_by
  All-of_insert_by P x [] h = (h.0, tt)
  All-of_insert_by P x (y ∷ ys) h = elim (Bool-cases (before y x)) [
    | inl e ↦
        let k = rw e at h in let (here, later) = All-of_insert_by P x ys k.1 in (here, (k.0, later))
    | inr e ↦ let k = rw e at h in (k.0, k.1)
  ]

  pub All-of_sort_by {κ} : (P : A → Type κ) (xs : List A) → All P (sort_by xs) → All P xs
  unfolding sort_by
  All-of_sort_by P [] h = tt
  All-of_sort_by P (x ∷ xs) h =
      let (here, later) = All-of_insert_by P x (sort_by xs) h in (here, All-of_sort_by P xs later)

  module _ (asym : (x y : A) → before y x ≡ true → before x y ≡ false) where
    insert_by-IsSorted : (x : A) (xs : List A) → IsSorted xs → IsSorted (insert_by x xs)
    unfolding insert_by
    insert_by-IsSorted x [] h = tt
    insert_by-IsSorted x (y ∷ []) h = ground (arith, asym x y)
    insert_by-IsSorted x (y ∷ z ∷ zs) h =
        ground (arith, asym x y, insert_by-IsSorted x (z ∷ zs) h.1)

    pub sort_by-IsSorted : (xs : List A) → IsSorted (sort_by xs)
    unfolding sort_by
    sort_by-IsSorted [] = tt
    sort_by-IsSorted (x ∷ xs) = insert_by-IsSorted x (sort_by xs) (sort_by-IsSorted xs)

  -- A change of the entries that the order does not see commutes with sorting.
  module _ (g : A → A) (blind : (x y : A) → before (g x) (g y) ≡ before x y) where
    map-insert_by : (x : A) (xs : List A) → insert_by (g x) (map g xs) ≡ map g (insert_by x xs)
    unfolding insert_by
    map-insert_by x [] = refl
    map-insert_by x (y ∷ ys) = elim (Bool-cases (before y x)) [
      | inl e ↦ rw (blind y x, e) (ap (λ r. g y ∷ r) (map-insert_by x ys))
      | inr e ↦ rw (blind y x, e) refl
    ]

    pub map-sort_by : (xs : List A) → sort_by (map g xs) ≡ map g (sort_by xs)
    unfolding sort_by
    map-sort_by [] = refl
    map-sort_by (x ∷ xs) = ap (insert_by (g x)) (map-sort_by xs) ∙ map-insert_by x (sort_by xs)

module _ {ℓ} {A : Type ℓ} where
  pub map-take : (g : A → A) (n : ℕ) (xs : List A) → take n (map g xs) ≡ map g (take n xs)
  map-take g zero xs = refl
  map-take g (suc n) [] = refl
  map-take g (suc n) (x ∷ xs) = ap (λ r. g x ∷ r) (map-take g n xs)

  pub keep-map :
      (p : A → Bool) (g : A → A) (xs : List A)
      → ((x : A) → p (g x) ≡ p x)
      → keep p (map g xs) ≡ map g (keep p xs)
  keep-map p g [] h = refl
  keep-map p g (x ∷ xs) h = elim (Bool-cases (p x)) [
    | inl e ↦ rw (h x, e) (ap (λ r. g x ∷ r) (keep-map p g xs h))
    | inr e ↦ rw (h x, e) (keep-map p g xs h)
  ]

  pub update_where-map :
      (p : A → Bool) (f : A → A) (xs : List A)
      → update_where p f xs ≡ map (λ x. if p x then f x else x) xs
  update_where-map p f [] = refl
  update_where-map p f (x ∷ xs) = ap (λ r. (if p x then f x else x) ∷ r) (update_where-map p f xs)

  pub length-take-le : (n : ℕ) (xs : List A) → length (take n xs) ≤ n
  length-take-le zero xs = omega arith
  length-take-le (suc n) [] = omega arith
  length-take-le (suc n) (x ∷ xs) = omega (arith, length-take-le n xs)

  pub All-take {κ} : (P : A → Type κ) (n : ℕ) (xs : List A) → All P xs → All P (take n xs)
  All-take P zero xs h = tt
  All-take P (suc n) [] h = tt
  All-take P (suc n) (x ∷ xs) h = (h.0, All-take P n xs h.1)

  pub All-keep : (p : A → Bool) (xs : List A) → All (λ x. p x ≡ true) (keep p xs)
  All-keep p [] = tt
  All-keep p (x ∷ xs) = elim (Bool-cases (p x)) [
    | inl e ↦ rw e (e, All-keep p xs)
    | inr e ↦ rw e (All-keep p xs)
  ]
