-- ===== src/Common/Finds.antt =====
-- A search after an update and after an insertion.
use phone_control.Common.Tests.{Bool-cases, if◌then◌else◌}
use phone_control.Common.Lists.{find_first, any, update_where, All}
use mathlib.Core.Path.{◌≡◌, refl, subst}
use mathlib.Core.Logic.{inl, inr}
use mathlib.Core.Bool.{Bool, true, false, ◌||◌}
use mathlib.Core.Option.{some}
use mathlib.Core.List.{List, [], ◌∷◌, ◌++◌}

module _ {ℓ} {A : Type ℓ} (p : A → Bool) where
  module _ (q : A → Bool) (f : A → A) (blind : (x : A) → p (f x) ≡ p x) where
    updated_same : (x : A) → p (if q x then f x else x) ≡ p x
    updated_same x = elim (Bool-cases (q x)) [ inl e ↦ rw e (blind x) | inr e ↦ rw e refl ]

    pub any-update_where : (xs : List A) → any p (update_where q f xs) ≡ any p xs
    any-update_where [] = refl
    any-update_where (x ∷ xs) = rw (updated_same x, any-update_where xs) refl

  pub find_first-append :
      (xs ys : List A) (a : A) → find_first p xs ≡ some a → find_first p (xs ++ ys) ≡ some a
  find_first-append [] ys a e = absurd (cc e)
  find_first-append (x ∷ xs) ys a e = elim (Bool-cases (p x)) [
    | inl here ↦ rw here (rw here at e)
    | inr other ↦ rw other (find_first-append xs ys a (rw other at e))
  ]

  pub find_first-last :
      (xs : List A) (y : A) → any p xs ≡ false → p y ≡ true → find_first p (xs ++ y ∷ []) ≡ some y
  find_first-last [] y e h = rw h refl
  find_first-last (x ∷ xs) y e h = elim (Bool-cases (p x)) [
    | inl here ↦ absurd (cc (rw here at e))
    | inr other ↦ rw other (find_first-last xs y (rw other at e) h)
  ]

  -- An update that leaves nothing for itself to do.
  pub All-update_where_self :
      (f : A → A)
      → ((x : A) → p (f x) ≡ false)
      → (xs : List A) → All (λ x. p x ≡ false) (update_where p f xs)
  All-update_where_self f done' [] = tt
  All-update_where_self f done' (x ∷ xs) = (
    elim (Bool-cases (p x)) [ inl e ↦ rw e (done' x) | inr e ↦ rw e e ],
    All-update_where_self f done' xs,
  )

  pub any-append : (xs ys : List A) → any p (xs ++ ys) ≡ (any p xs || any p ys)
  any-append [] ys = refl
  any-append (x ∷ xs) ys = rw (any-append xs ys) (assoc (p x) (any p xs) (any p ys))
    where
      assoc : (a b c : Bool) → (a || (b || c)) ≡ ((a || b) || c)
      assoc true b c = refl
      assoc false b c = refl

  pub All-found {κ} :
      (P : A → Type κ) (xs : List A) (a : A)
      → All P xs
      → find_first p xs ≡ some a
      → P a × (p a ≡ true)
  All-found P [] a h e = absurd (cc e)
  All-found P (x ∷ xs) a h e = elim (Bool-cases (p x)) [
    | inl here ↦
        let same : x ≡ a = cc (rw here at e) in subst (λ y. P y × (p y ≡ true)) same (h.0, here)
    | inr other ↦ All-found P xs a h.1 (rw other at e)
  ]
