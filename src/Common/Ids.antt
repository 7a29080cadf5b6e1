-- ===== src/Common/Ids.antt =====
-- Rows with distinct identifiers: the primary key of a table.
use phone_control.Common.Tests.{◌==◌, ==_iff, Bool-cases, if◌then◌else◌}
use mathlib.Core.Option.{some}
use phone_control.Common.Lists.{find_first, All, any, keep, update_where, count_where}
use phone_control.Common.Sort.{All-keep, sort_by, count_where-sort_by}
use Prim.Native.Nat.{ℕ, suc, ◌≤◌}
use mathlib.Core.Path.{◌≡◌, refl, sym, ap, ◌∙◌, subst}
use mathlib.Core.Logic.{◌⊎◌, inl, inr}
use mathlib.Core.Bool.{Bool, true, false, not, ◌&&◌}
use mathlib.Core.List.{List, [], ◌∷◌, map}
use native.Mathlib.Omega.{arith}

module _ {A : Type 0} where
  abbrev pub Within : A → List A → Type 0
  Within x [] = ⊥
  Within x (y ∷ ys) = (x ≡ y) ⊎ Within x ys

  pub All-of_Within {κ} : (P : A → Type κ) (xs : List A) → ((x : A) → Within x xs → P x) → All P xs
  All-of_Within P [] h = tt
  All-of_Within P (x ∷ xs) h = (h x (inl refl), All-of_Within P xs (λ y w. h y (inr w)))

  pub All-Within {κ} : (P : A → Type κ) (xs : List A) (x : A) → All P xs → Within x xs → P x
  All-Within P [] x h w = elim w [ ]
  All-Within P (y ∷ ys) x h (inl e) = subst P (sym e) h.0
  All-Within P (y ∷ ys) x h (inr w) = All-Within P ys x h.1 w

  pub Within-keep : (p : A → Bool) (xs : List A) (x : A) → Within x (keep p xs) → Within x xs
  Within-keep p [] x w = w
  Within-keep p (y ∷ ys) x w = elim (Bool-cases (p y)) [
    | inl e ↦ elim (rw e at w) [ inl here ↦ inl here | inr later ↦ inr (Within-keep p ys x later) ]
    | inr e ↦ inr (Within-keep p ys x (rw e at w))
  ]

  pub keep-map-All :
      (p : A → Bool) (g : A → A) (xs : List A)
      → All (λ x. p (g x) ≡ p x) xs
      → keep p (map g xs) ≡ map g (keep p xs)
  keep-map-All p g [] h = refl
  keep-map-All p g (x ∷ xs) h = elim (Bool-cases (p x)) [
    | inl e ↦ rw (h.0, e) (ap (λ r. g x ∷ r) (keep-map-All p g xs h.1))
    | inr e ↦ rw (h.0, e) (keep-map-All p g xs h.1)
  ]

  -- An update that concerns no entry.
  pub update_where-none :
      (p : A → Bool) (f : A → A) (xs : List A)
      → All (λ x. p x ≡ false) xs
      → update_where p f xs ≡ xs
  update_where-none p f [] h = refl
  update_where-none p f (x ∷ xs) h = rw h.0 (ap (λ r. x ∷ r) (update_where-none p f xs h.1))

  pub All-update_where {κ μ} :
      (P : A → Type κ) (Q : A → Type μ) (p : A → Bool) (f : A → A) (xs : List A)
      → ((x : A) → p x ≡ true → P x → Q (f x))
      → ((x : A) → p x ≡ false → P x → Q x)
      → All P xs
      → All Q (update_where p f xs)
  All-update_where P Q p f [] yes' no' h = tt
  All-update_where P Q p f (x ∷ xs) yes' no' h = (
    elim (Bool-cases (p x)) [ inl e ↦ rw e (yes' x e h.0) | inr e ↦ rw e (no' x e h.0) ],
    All-update_where P Q p f xs yes' no' h.1,
  )

  -- An update that a search does not see.
  pub find_first-update_where :
      (p q : A → Bool) (f : A → A) (xs : List A) (a : A)
      → ((x : A) → p (f x) ≡ p x)
      → find_first p xs ≡ some a
      → find_first p (update_where q f xs) ≡ some (if q a then f a else a)
  find_first-update_where p q f [] a blind e = cc
  find_first-update_where p q f (x ∷ xs) a blind e = elim (Bool-cases (p x)) [
    | inl h ↦
        let same : some x ≡ some a = rw h at e in
        let here : x ≡ a = cc same in
        rw (← here)
          (elim (Bool-cases (q x)) [ inl k ↦ rw (k, blind x, h) refl | inr k ↦ rw (k, h) refl ])
    | inr h ↦ elim (Bool-cases (q x)) [
      | inl k ↦ rw (k, blind x, h) (find_first-update_where p q f xs a blind (rw h at e))
      | inr k ↦ rw (k, h) (find_first-update_where p q f xs a blind (rw h at e))
    ]
  ]

  pub Within-find_first :
      (p : A → Bool) (xs : List A) (a : A) → find_first p xs ≡ some a → Within a xs
  Within-find_first p [] a e = cc
  Within-find_first p (x ∷ xs) a e = elim (Bool-cases (p x)) [
    | inl h ↦ let same : some x ≡ some a = rw h at e in let here : a ≡ x = cc same in inl here
    | inr h ↦ inr (Within-find_first p xs a (rw h at e))
  ]

  -- An update after which `p` holds of no entry where it did not hold before.
  pub count_where-update_le :
      (p q : A → Bool) (f : A → A) (xs : List A)
      → All (λ x. q x ≡ true → p (f x) ≡ true → p x ≡ true) xs
      → count_where p (update_where q f xs) ≤ count_where p xs
  count_where-update_le p q f [] h = omega arith
  count_where-update_le p q f (x ∷ xs) h = ground (arith, count_where-update_le p q f xs h.1)

  -- An update that makes `p` false takes away at least the entry that was found.
  pub count_where-update_found :
      (p q : A → Bool) (f : A → A) (xs : List A) (a : A)
      → ((x : A) → p (f x) ≡ false)
      → find_first p xs ≡ some a
      → q a ≡ true
      → suc (count_where p (update_where q f xs)) ≤ count_where p xs
  count_where-update_found p q f [] a shut found here = ground arith
  count_where-update_found p q f (x ∷ xs) a shut found here = ground (
    arith,
    shut x,
    count_where-update_le p q f xs (All-of_Within _ xs (λ y w k l. absurd (cc (shut y, l)))),
    count_where-update_found p q f xs a shut,
  )

  count_where-update_eq :
      (p q : A → Bool) (f : A → A) (xs : List A)
      → ((x : A) → p (f x) ≡ false)
      → count_where p (update_where q f xs) ≡ count_where (λ x. p x && not (q x)) xs
  count_where-update_eq p q f [] shut = refl
  count_where-update_eq p q f (x ∷ xs) shut =
      ground (arith, shut x, count_where-update_eq p q f xs shut)

  -- The same where the entry was found in another order of the list.
  pub count_where-update_sorted :
      (before : A → A → Bool) (p q : A → Bool) (f : A → A) (xs : List A) (a : A)
      → ((x : A) → p (f x) ≡ false)
      → find_first p (sort_by before xs) ≡ some a
      → q a ≡ true
      → suc (count_where p (update_where q f xs)) ≤ count_where p xs
  count_where-update_sorted before p q f xs a shut found here = omega (
    arith,
    count_where-update_eq p q f xs shut,
    count_where-update_eq p q f (sort_by before xs) shut,
    count_where-sort_by before (λ x. p x && not (q x)) xs,
    count_where-sort_by before p xs,
    count_where-update_found p q f (sort_by before xs) a shut found here,
  )

  pub update_where-congr :
      (p q : A → Bool) (f : A → A) (xs : List A)
      → All (λ x. p x ≡ q x) xs
      → update_where p f xs ≡ update_where q f xs
  update_where-congr p q f [] h = refl
  update_where-congr p q f (x ∷ xs) h =
      rw h.0 (ap (λ r. (if q x then f x else x) ∷ r) (update_where-congr p q f xs h.1))

  pub Within-keep_self :
      (p : A → Bool) (xs : List A) (x : A) → Within x xs → p x ≡ true → Within x (keep p xs)
  Within-keep_self p [] x w h = elim w [ ]
  Within-keep_self p (y ∷ ys) x (inl e) h = rw (← e, h) (inl refl)
  Within-keep_self p (y ∷ ys) x (inr w) h = elim (Bool-cases (p y)) [
    | inl e ↦ rw e (inr (Within-keep_self p ys x w h))
    | inr e ↦ rw e (Within-keep_self p ys x w h)
  ]

  pub All-map {κ} :
      (P : A → Type κ) (g : A → A) (xs : List A) → All (λ x. P (g x)) xs → All P (map g xs)
  All-map P g [] h = tt
  All-map P g (x ∷ xs) h = (h.0, All-map P g xs h.1)

  pub count_where-none :
      (p : A → Bool) (xs : List A) → All (λ x. p x ≡ false) xs → count_where p xs ≡ 0
  count_where-none p [] h = refl
  count_where-none p (x ∷ xs) h = ground (arith, count_where-none p xs)

module _ {A : Type 0} (id : A → ℕ) where
  abbrev pub DistinctIds : List A → Type 0
  DistinctIds [] = Unit {0}
  DistinctIds (x ∷ xs) = All (λ y. (id y == id x) ≡ false) xs × DistinctIds xs

  -- Two rows with one identifier are one row.
  pub DistinctIds-eq :
      (xs : List A) (x y : A) → DistinctIds xs → Within x xs → Within y xs → id x ≡ id y → x ≡ y
  DistinctIds-eq [] x y d w w' h = elim w [ ]
  DistinctIds-eq (z ∷ zs) x y d (inl e) (inl f) h = e ∙ sym f
  DistinctIds-eq (z ∷ zs) x y d (inl e) (inr w) h =
      let apart = All-Within _ zs y d.0 w in
      absurd (cc (apart, (==_iff (id y) (id z)).1 (sym h ∙ ap id e)))
  DistinctIds-eq (z ∷ zs) x y d (inr w) (inl f) h =
      let apart = All-Within _ zs x d.0 w in
      absurd (cc (apart, (==_iff (id x) (id z)).1 (h ∙ ap id f)))
  DistinctIds-eq (z ∷ zs) x y d (inr w) (inr w') h = DistinctIds-eq zs x y d.1 w w' h

  apart-map :
      (g : A → A) (h : (x : A) → id (g x) ≡ id x) (x : A) (xs : List A)
      → All (λ y. (id y == id x) ≡ false) xs
      → All (λ y. (id y == id (g x)) ≡ false) (map g xs)
  apart-map g h x [] a = tt
  apart-map g h x (y ∷ ys) a = (rw (h y, h x) a.0, apart-map g h x ys a.1)

  pub DistinctIds-map :
      (g : A → A) (xs : List A)
      → ((x : A) → id (g x) ≡ id x)
      → DistinctIds xs
      → DistinctIds (map g xs)
  DistinctIds-map g [] h d = tt
  DistinctIds-map g (x ∷ xs) h d = (apart-map g h x xs d.0, DistinctIds-map g xs h d.1)

  pub any_of_Within : (xs : List A) (x : A) → Within x xs → any (λ y. id y == id x) xs ≡ true
  any_of_Within [] x w = elim w [ ]
  any_of_Within (y ∷ ys) x (inl e) = rw (← e) (ground (arith, ==_iff (id x) (id x)))
  any_of_Within (y ∷ ys) x (inr w) = ground (arith, any_of_Within ys x w)

  -- A row with the identifier of one that is kept is kept itself.
  kept_of_any :
      (p : A → Bool) (xs ks : List A) (x : A)
      → DistinctIds xs
      → All (λ k. Within k xs × (p k ≡ true)) ks
      → Within x xs
      → any (λ y. id y == id x) ks ≡ true
      → p x ≡ true
  kept_of_any p xs [] x d a w h = cc
  kept_of_any p xs (k ∷ ks) x d a w h = elim (Bool-cases (id k == id x)) [
    | inl same ↦ rw (← DistinctIds-eq xs k x d a.0.0 w ((==_iff (id k) (id x)).0 same)) a.0.1
    | inr other ↦ kept_of_any p xs ks x d a.1 w (rw other at h)
  ]

  -- Updating the rows whose identifiers were kept is updating the rows that were kept.
  pub update_where-kept :
      (p : A → Bool) (f : A → A) (xs : List A)
      → DistinctIds xs
      → update_where (λ x. any (λ y. id y == id x) (keep p xs)) f xs ≡ update_where p f xs
  update_where-kept p f xs d =
      update_where-congr (λ x. any (λ y. id y == id x) (keep p xs)) p f xs
        (All-of_Within _ xs (λ x w. elim (Bool-cases (p x)) [
          | inl e ↦ any_of_Within (keep p xs) x (Within-keep_self p xs x w e) ∙ sym e
          | inr e ↦ elim (Bool-cases (any (λ y. id y == id x) (keep p xs))) [
            | inl h ↦
                let kept =
                  All-of_Within (λ k. Within k xs × (p k ≡ true)) (keep p xs)
                    (λ k v. (Within-keep p xs k v, All-Within _ (keep p xs) k (All-keep p xs) v)) in
                h ∙ sym (kept_of_any p xs (keep p xs) x d kept w h)
            | inr h ↦ h ∙ sym e
          ]
        ]))
