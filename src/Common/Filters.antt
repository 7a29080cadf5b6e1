-- ===== src/Common/Filters.antt =====
-- Filters one after the other, and what a filter removes.
use phone_control.Common.Tests.{Bool-cases}
use phone_control.Common.Lists.{length, keep, any, count_where}
use Prim.Native.Nat.{◌+◌}
use mathlib.Core.Path.{◌≡◌, refl, ap}
use mathlib.Core.Logic.{inl, inr}
use mathlib.Core.Bool.{Bool, true, not, ◌&&◌}
use mathlib.Core.List.{List, [], ◌∷◌}
use native.Mathlib.Omega.{arith}

module _ {ℓ} {A : Type ℓ} where
  pub keep-same : (f g : A → Bool) → ((x : A) → f x ≡ g x) → (xs : List A) → keep f xs ≡ keep g xs
  keep-same f g h [] = refl
  keep-same f g h (x ∷ xs) = rw (h x, keep-same f g h xs) refl

  pub keep-keep : (f g : A → Bool) (xs : List A) → keep f (keep g xs) ≡ keep (λ x. g x && f x) xs
  keep-keep f g [] = refl
  keep-keep f g (x ∷ xs) = elim (Bool-cases (g x)) [
    | inr e ↦ rw e (keep-keep f g xs)
    | inl e ↦ elim (Bool-cases (f x)) [
      | inl h ↦ rw (e, h) (ap (λ r. x ∷ r) (keep-keep f g xs))
      | inr h ↦ rw (e, h) (keep-keep f g xs)
    ]
  ]

  pub keep-everything : (xs : List A) → keep (λ x. true) xs ≡ xs
  keep-everything [] = refl
  keep-everything (x ∷ xs) = ap (λ r. x ∷ r) (keep-everything xs)

  pub keep-not_none :
      (q : A → Bool) (xs : List A) → count_where q xs ≡ 0 → keep (λ x. not (q x)) xs ≡ xs
  keep-not_none q [] e = refl
  keep-not_none q (x ∷ xs) e = elim (Bool-cases (q x)) [
    | inl h ↦ absurd (omega (arith, rw h at e))
    | inr h ↦
        let none' : count_where q xs ≡ 0 = omega (arith, rw h at e) in
        rw h (ap (λ r. x ∷ r) (keep-not_none q xs none'))
  ]

  pub length-count_where :
      (q : A → Bool) (xs : List A)
      → length xs ≡ count_where q xs + length (keep (λ x. not (q x)) xs)
  length-count_where q [] = refl
  length-count_where q (x ∷ xs) = elim (Bool-cases (q x)) [
    | inl h ↦ rw h (omega (arith, length-count_where q xs))
    | inr h ↦ rw h (omega (arith, length-count_where q xs))
  ]

  -- A row that no test of a list of tests removes.
  pub not-any :
      {B : Type 0} (t : B → A → Bool) (b : B) (bs : List B) (x : A)
      → (not (t b x) && not (any (λ c. t c x) bs)) ≡ not (any (λ c. t c x) (b ∷ bs))
  not-any t b bs x = elim (Bool-cases (t b x)) [ inl e ↦ rw e refl | inr e ↦ rw e refl ]
