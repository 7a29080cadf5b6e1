-- ===== src/Maintenance/Purge.antt =====
-- The deletion in batches ends, and deletes what a single deletion would.
use phone_control.Common.{
  ℕ, zero, suc, ◌+◌, ◌-◌, ◌<◌, ◌≤◌, ◌≡◌, ◌∙◌, refl, sym, ap, inl, inr, Bool, not, List, [], ◌∷◌,
  some, ltb, length, keep, count_where, Bool-cases, arith,
}
use phone_control.Common.Filters.{keep-not_none, length-count_where}
use phone_control.Maintenance.{delete_some, purge_batches}

module _ {A : Type 0} (q : A → Bool) where
  abbrev pub others : List A → List A
  others = keep (λ x. not (q x))

  delete_some-others : (n : ℕ) (xs : List A) → others (delete_some q n xs) ≡ others xs
  unfolding delete_some
  delete_some-others zero xs = refl
  delete_some-others (suc n) [] = refl
  delete_some-others (suc n) (x ∷ xs) = elim (Bool-cases (q x)) [
    | inl e ↦ rw (e, delete_some) (delete_some-others n xs)
    | inr e ↦ rw (e, delete_some) (rw e (ap (λ r. x ∷ r) (delete_some-others (suc n) xs)))
  ]

  delete_some-count :
      (n : ℕ) (xs : List A) → count_where q (delete_some q n xs) ≡ count_where q xs - n
  unfolding delete_some
  delete_some-count zero xs = omega arith
  delete_some-count (suc n) [] = omega arith
  delete_some-count (suc n) (x ∷ xs) = elim (Bool-cases (q x)) [
    | inl e ↦ rw (e, delete_some) (omega (arith, delete_some-count n xs))
    | inr e ↦ rw (e, delete_some) (rw e (omega (arith, delete_some-count (suc n) xs)))
  ]

  -- With more fuel than rows to delete, the batches delete them all and no other row, and their
  -- number is the answer.
  pub purge_batches_exact :
      (b fuel deleted : ℕ) (rows : List A)
      → count_where q rows < fuel
      → purge_batches q (suc b) fuel deleted rows ≡ some (others rows, deleted + count_where q rows)
  unfolding purge_batches
  purge_batches_exact b zero deleted rows enough = absurd (omega (arith, enough))
  purge_batches_exact b (suc fuel) deleted rows enough =
      let left = delete_some q (suc b) rows in
      let lot = length rows - length left in
      let size : lot + count_where q left ≡ count_where q rows = omega (
        arith,
        length-count_where q rows,
        length-count_where q left,
        ap length (delete_some-others (suc b) rows),
        delete_some-count (suc b) rows,
      ) in
      let fewer : count_where q left ≡ count_where q rows - suc b =
        delete_some-count (suc b) rows in
      elim (Bool-cases (ltb lot (suc b))) [
        | inl last ↦
            rw (last, purge_batches)
              (let small : lot < suc b = ground (arith, last) in
                let none' : count_where q left ≡ 0 = omega (arith, size, fewer, small) in
                let all' : lot ≡ count_where q rows = omega (arith, size, none') in
                ap (λ xs. some (xs, deleted + lot))
                  (sym (keep-not_none q left none') ∙ delete_some-others (suc b) rows)
                ∙ ap (λ n. some (others rows, deleted + n)) all')
        | inr full ↦
            rw (full, purge_batches)
              (let big : suc b ≤ lot = ground (arith, full) in
                let again : count_where q left < fuel = omega (arith, size, fewer, big, enough) in
                let sum : deleted + lot + count_where q left ≡ deleted + count_where q rows =
                  omega (arith, size) in
                purge_batches_exact b fuel (deleted + lot) left again
                ∙ ap (λ xs. some (xs, deleted + lot + count_where q left))
                    (delete_some-others (suc b) rows)
                ∙ ap (λ n. some (others rows, n)) sum)
      ]
