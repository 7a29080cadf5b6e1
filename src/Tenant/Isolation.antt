-- ===== src/Tenant/Isolation.antt =====
-- In the scope of a company, no other company is read or changed.
use phone_control.Common.{
  ℕ, ◌≡◌, ◌≢◌, ◌⊎◌, ◌∙◌, ap, sym, refl, inl, inr, true, false, List, [], ◌∷◌, ==_iff, keep, All,
  arith, Bool-cases, Option-cases,
}
use phone_control.Common.Ids.{Within, All-Within, All-of_Within}
use phone_control.Store.{Reply, done, raised}
use phone_control.Tenant.{
  Model, Operation, Kind, kind_of, Row, Args, Query, tenant_of, is_tenant_model, is_company,
  merge_where, owned_only, inject_company, if_owned, create_injected, scoped, tenant_query,
  as_first,
}
use phone_control.Tenant.Documented.{matches, Documented}
use phone_control.Tenant.Foreign.{
  scope, is_foreign, IsOwn, written_own, created_own, inject_company_own,
}

matches-tenant :
    (m : Model) (c : ℕ) (a : Args) (r : Row)
    → matches m (merge_where c a).filter r ≡ true
    → (a.filter.rest r ≡ true) × (tenant_of m r ≡ c)
matches-tenant m c a r h = ground (arith, h, ==_iff (tenant_of m r) c)

-- What an operation becomes in the scope of a company.
pub tenant_query-scope :
    (query : Query) (m : Model) (op : Operation) (c : ℕ) (a : Args) (rows : List Row)
    → is_tenant_model m ≡ true
    → tenant_query query (scope c) m op a rows ≡ scoped query c (kind_of op) m op a rows
unfolding tenant_query
tenant_query-scope query m op c a rows h = rw h refl

as_first_reads : (op : Operation) → kind_of (as_first op) ≡ Kind.read
as_first_reads Operation.find_unique = refl
as_first_reads _ = refl

-- At most one row of the table satisfies the filter, whatever its company.
abbrev pub IsUnique : Args → List Row → Type 0
IsUnique a rows =
    (x y : Row)
    → Within x rows
    → Within y rows
    → a.filter.rest x ≡ true
    → a.filter.rest y ≡ true
    → x ≡ y

module _ (query : Query) (prisma : Documented query) (m : Model) (c : ℕ) (a : Args)
    (rows : List Row) where
  merged_own : IsOwn m c (merge_where c a) rows
  merged_own r w h = (matches-tenant m c a r h).1

  merged_write :
      (op : Operation)
      → kind_of op ≢ Kind.creation
      → ((r : Row) → tenant_of m (a.change r) ≡ tenant_of m r)
      → keep (is_foreign m c) (query m op (merge_where c a) rows).1 ≡ keep (is_foreign m c) rows
  merged_write op k blind = elim (prisma.writes m op (merge_where c a) rows) [
    | inl same ↦ rw same refl
    | inr wrote ↦ rw wrote (written_own m c (merge_where c a) rows op k merged_own blind)
  ]

  -- The row that was found owned is the only one that the caller's filter can mean.
  found_own :
      (r : Row)
      → IsUnique a rows
      → Within r rows
      → matches m (owned_only c a).filter r ≡ true
      → IsOwn m c a rows
  found_own r unique w h x v k =
      let held = matches-tenant m c a r h in
      let rest : a.filter.rest x ≡ true = ground (arith, k) in
      ap (tenant_of m) (unique x r v w rest held.0) ∙ held.1

  -- After the check that the row is owned.
  owned_write :
      (op : Operation)
      → kind_of op ≢ Kind.creation
      → ((r : Row) → tenant_of m (a.change r) ≡ tenant_of m r)
      → IsUnique a rows
      → (reply : Reply (List Row))
      → ((found : List Row)
          → reply ≡ done found
          → All (λ r. Within r rows × (matches m (owned_only c a).filter r ≡ true)) found)
      → keep (is_foreign m c) (if_owned query reply m op a rows).1 ≡ keep (is_foreign m c) rows
  owned_write op k blind unique (raised e) h = refl
  owned_write op k blind unique (done []) h = refl
  owned_write op k blind unique (done (r ∷ rs)) h = elim (prisma.writes m op a rows) [
    | inl same ↦ rw same refl
    | inr wrote ↦
        let first = (h (r ∷ rs) refl).0 in
        rw wrote (written_own m c a rows op k (found_own r unique first.0 first.1) blind)
  ]

  created_write :
      (op : Operation)
      → kind_of op ≡ Kind.creation
      → is_company m ≡ false
      → keep (is_foreign m c) (create_injected query (inject_company c a.new_rows) m op a rows).1
        ≡ keep (is_foreign m c) rows
  created_write op k other = elim (Option-cases (inject_company c a.new_rows)) [
    | inl refused ↦ rw refused refl
    | inr (checked, ok) ↦ rw ok (elim (prisma.writes m op (record a { new_rows = checked }) rows) [
      | inl same ↦ rw same refl
      | inr wrote ↦ rw wrote (
          created_own m c (record a { new_rows = checked }) rows op k
            (inject_company_own m c a.new_rows checked other ok))
    ])
  ]

  scoped_write :
      (op : Operation)
      → ((r : Row) → tenant_of m (a.change r) ≡ tenant_of m r)
      → IsUnique a rows
      → (kind : Kind) → kind_of op ≡ kind
      → kind ≢ Kind.uncovered
      → keep (is_foreign m c) (scoped query c kind m op a rows).1 ≡ keep (is_foreign m c) rows
  unfolding scoped
  scoped_write op blind unique Kind.read e k = merged_write op (λ f. cc (e, f)) blind
  scoped_write op blind unique Kind.bulk_write e k = merged_write op (λ f. cc (e, f)) blind
  scoped_write op blind unique Kind.unique_read e k =
      merged_write (as_first op) (λ f. cc (as_first_reads op, f)) blind
  scoped_write op blind unique Kind.unique_write e k =
      owned_write op (λ f. cc (e, f)) blind unique
        (query m Operation.find_first (owned_only c a) rows).0
        (λ found f. prisma.answers m Operation.find_first (owned_only c a) rows found refl f)
  scoped_write op blind unique Kind.creation e k = elim (Bool-cases (is_company m)) [
    | inl self ↦ rw self refl
    | inr other ↦ rw other (created_write op e other)
  ]
  scoped_write op blind unique Kind.upsertion e k = refl
  scoped_write op blind unique Kind.uncovered e k = absurd (k refl)

-- In the scope of a company, an operation of any kind that the extension names leaves the rows of
-- the other companies as they are, if its change moves no row to another company and its filter,
-- apart from the company's column, means one row at most.
pub tenant_query_writes :
    (query : Query) (m : Model) (op : Operation) (c : ℕ) (a : Args) (rows : List Row)
    → Documented query
    → is_tenant_model m ≡ true
    → kind_of op ≢ Kind.uncovered
    → ((r : Row) → tenant_of m (a.change r) ≡ tenant_of m r)
    → IsUnique a rows
    → keep (is_foreign m c) (tenant_query query (scope c) m op a rows).1
      ≡ keep (is_foreign m c) rows
tenant_query_writes query m op c a rows prisma tenant named blind unique =
    rw (tenant_query-scope query m op c a rows tenant)
      (scoped_write query prisma m c a rows op blind unique (kind_of op) refl named)

-- Rows that were answered to the merged filter.
answers_own :
    (query : Query) (m : Model) (op : Operation) (c : ℕ) (a : Args) (rows found : List Row)
    → Documented query
    → kind_of op ≡ Kind.read
    → (query m op (merge_where c a) rows).0 ≡ done found
    → All (λ r. Within r rows × (a.filter.rest r ≡ true) × (tenant_of m r ≡ c)) found
answers_own query m op c a rows found prisma k e =
    let given = prisma.answers m op (merge_where c a) rows found k e in
    All-of_Within _ found (λ r w.
      let held = All-Within _ found r given w in
      let own = matches-tenant m c a r held.1 in (held.0, own.0, own.1))

abbrev pub IsReading : Operation → Type 0
IsReading op = (kind_of op ≡ Kind.read) ⊎ (kind_of op ≡ Kind.unique_read)

-- In the scope of a company, whatever the filter of the caller, a read answers with rows of the
-- table that satisfy the filter on the other columns and belong to the company.
pub tenant_query_reads :
    (query : Query) (m : Model) (op : Operation) (c : ℕ) (a : Args) (rows found : List Row)
    → Documented query
    → is_tenant_model m ≡ true
    → IsReading op
    → (tenant_query query (scope c) m op a rows).0 ≡ done found
    → All (λ r. Within r rows × (a.filter.rest r ≡ true) × (tenant_of m r ≡ c)) found
unfolding scoped
tenant_query_reads query m op c a rows found prisma tenant reading e =
    let e' : (scoped query c (kind_of op) m op a rows).0 ≡ done found =
      ap (λ x. x.0) (sym (tenant_query-scope query m op c a rows tenant)) ∙ e in
    elim reading [
      | inl k ↦ answers_own query m op c a rows found prisma k (rw k at e')
      | inr k ↦
          answers_own query m (as_first op) c a rows found prisma (as_first_reads op) (rw k at e')
    ]
