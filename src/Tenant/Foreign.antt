-- ===== src/Tenant/Foreign.antt =====
-- Writes that leave the rows of the other companies.
use phone_control.Common.{◌⊎◌}
use phone_control.Common.{
  ℕ, ◌≡◌, ◌≢◌, ◌∙◌, refl, inl, inr, Bool, true, false, not, List, [], ◌∷◌, ◌++◌, Option, none, some,
  map, ◌==◌, ==_iff, keep, update_where, All, Bool-cases, Option-cases,
}
use phone_control.Common.Ids.{Within, All-of_Within}
use phone_control.Tenant.{
  Model, Operation, Kind, kind_of, Row, Given, undefined, null, value, NewRow, Args, tenant_of,
  RequestContext, is_company, check, inject_company,
}
use phone_control.Tenant.Documented.{matches, row_of, written}

abbrev pub scope : ℕ → Option RequestContext
scope c = some (record {
  company_id = some c;
  admin_id = none;
  device_id = none;
  role = none;
  depot_scope = [];
  cross_tenant = false;
})

abbrev pub is_foreign : Model → ℕ → Row → Bool
is_foreign m c r = not (tenant_of m r == c)

module _ {A : Type 0} (k p : A → Bool) where
  keep-update_where :
      (f : A → A) (xs : List A)
      → All (λ x. p x ≡ true → (k x ≡ false) × (k (f x) ≡ false)) xs
      → keep k (update_where p f xs) ≡ keep k xs
  keep-update_where f [] h = refl
  keep-update_where f (x ∷ xs) h = elim (Bool-cases (p x)) [
    | inl e ↦ rw (e, (h.0 e).0, (h.0 e).1) (keep-update_where f xs h.1)
    | inr e ↦ rw (e, keep-update_where f xs h.1) refl
  ]

  keep-keep :
      (xs : List A)
      → All (λ x. p x ≡ true → k x ≡ false) xs
      → keep k (keep (λ x. not (p x)) xs) ≡ keep k xs
  keep-keep [] h = refl
  keep-keep (x ∷ xs) h = elim (Bool-cases (p x)) [
    | inl e ↦ rw (e, h.0 e) (keep-keep xs h.1)
    | inr e ↦ rw (e, keep-keep xs h.1) refl
  ]

keep-append :
    {A : Type 0} (k : A → Bool) (xs ys : List A)
    → All (λ y. k y ≡ false) ys
    → keep k (xs ++ ys) ≡ keep k xs
keep-append k [] [] h = refl
keep-append k [] (y ∷ ys) h = rw h.0 (keep-append k [] ys h.1)
keep-append k (x ∷ xs) ys h = rw (keep-append k xs ys h) refl

pub not_foreign : (m : Model) (c : ℕ) (r : Row) → tenant_of m r ≡ c → is_foreign m c r ≡ false
not_foreign m c r e = rw ((==_iff (tenant_of m r) c).1 e) refl

module _ (m : Model) (c : ℕ) (a : Args) (rows : List Row) where
  abbrev pub IsOwn : Type 0
  IsOwn = (r : Row) → Within r rows → matches m a.filter r ≡ true → tenant_of m r ≡ c

  update-own :
      IsOwn
      → ((r : Row) → tenant_of m (a.change r) ≡ tenant_of m r)
      → keep (is_foreign m c) (update_where (matches m a.filter) a.change rows)
        ≡ keep (is_foreign m c) rows
  update-own own blind = keep-update_where (is_foreign m c) (matches m a.filter) a.change rows (
      All-of_Within _ rows (λ r w h.
        (not_foreign m c r (own r w h), not_foreign m c (a.change r) (blind r ∙ own r w h))))

  delete-own :
      IsOwn
      → keep (is_foreign m c) (keep (λ r. not (matches m a.filter r)) rows)
        ≡ keep (is_foreign m c) rows
  delete-own own =
      keep-keep (is_foreign m c) (matches m a.filter) rows
        (All-of_Within _ rows (λ r w h. not_foreign m c r (own r w h)))

  -- An update or a deletion of rows that are all of the company.
  pub written_own :
      (op : Operation)
      → (kind_of op ≢ Kind.creation)
      → IsOwn
      → ((r : Row) → tenant_of m (a.change r) ≡ tenant_of m r)
      → keep (is_foreign m c) (written op m a rows) ≡ keep (is_foreign m c) rows
  written_own Operation.update k own blind = update-own own blind
  written_own Operation.update_many k own blind = update-own own blind
  written_own Operation.delete k own blind = delete-own own
  written_own Operation.delete_many k own blind = delete-own own
  written_own Operation.create k own blind = absurd (k refl)
  written_own Operation.create_many k own blind = absurd (k refl)
  written_own Operation.create_many_and_return k own blind = absurd (k refl)
  written_own _ k own blind = refl

  -- A creation of rows that are all of the company.
  pub created_own :
      (op : Operation)
      → kind_of op ≡ Kind.creation
      → All (λ r. is_foreign m c r ≡ false) (map row_of a.new_rows)
      → keep (is_foreign m c) (written op m a rows) ≡ keep (is_foreign m c) rows
  created_own Operation.create k fresh = keep-append (is_foreign m c) rows _ fresh
  created_own Operation.create_many k fresh = keep-append (is_foreign m c) rows _ fresh
  created_own Operation.create_many_and_return k fresh = keep-append (is_foreign m c) rows _ fresh
  created_own _ k fresh = absurd (cc k)

tenant_of_other : (m : Model) (r : Row) → is_company m ≡ false → tenant_of m r ≡ r.company_id
tenant_of_other Model.company r h = absurd (cc h)
tenant_of_other _ r h = refl

given_cases : (g : Given) → (g ≡ undefined) ⊎ ((g ≡ null) ⊎ ((d : ℕ) × (g ≡ value d)))
given_cases undefined = inl refl
given_cases null = inr (inl refl)
given_cases (value d) = inr (inr (d, refl))

check_own : (c : ℕ) (n n' : NewRow) → check c n ≡ some n' → (row_of n').company_id ≡ c
check_own c n n' e = elim (given_cases n.tenant) [
  | inl unnamed ↦
      let same : record n { tenant = value c } ≡ n' = cc (rw unnamed at e) in rw (← same) refl
  | inr (inl missing) ↦ absurd (cc (rw missing at e))
  | inr (inr (d, named)) ↦ elim (Bool-cases (d == c)) [
    | inl here ↦
        let same : record n { tenant = value c } ≡ n' = cc (rw here at (rw named at e)) in
        rw (← same) refl
    | inr elsewhere ↦ absurd (cc (rw elsewhere at (rw named at e)))
  ]
]

pub inject_company_own :
    (m : Model) (c : ℕ) (rows checked : List NewRow)
    → is_company m ≡ false
    → inject_company c rows ≡ some checked
    → All (λ r. is_foreign m c r ≡ false) (map row_of checked)
unfolding inject_company
inject_company_own m c [] checked other e = let same : [] ≡ checked = cc e in rw (← same) tt
inject_company_own m c (n ∷ ns) checked other e = elim (Option-cases (check c n)) [
  | inl refused ↦ absurd (cc (rw refused at e))
  | inr (n', ok) ↦ elim (Option-cases (inject_company c ns)) [
    | inl refused ↦ absurd (cc (rw (ok, refused) at e))
    | inr (ns', oks) ↦
        let same : n' ∷ ns' ≡ checked = cc (rw (ok, oks) at e) in
        rw (← same) (
          not_foreign m c (row_of n') (tenant_of_other m (row_of n') other ∙ check_own c n n' ok),
          inject_company_own m c ns ns' other oks,
        )
  ]
]
