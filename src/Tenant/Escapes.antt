-- ===== src/Tenant/Escapes.antt =====
-- Where the filter of the companies does not hold.
use phone_control.Common.{
  ℕ, ◌≡◌, ◌⊎◌, ◌∙◌, refl, inl, inr, Bool, true, false, List, Option, none, some, ==_iff, Bool-cases,
}
use phone_control.Common.Ids.{Within}
use phone_control.Tenant.{
  Model, Operation, Kind, kind_of, Row, Args, Query, tenant_of, RequestContext, is_tenant_model,
  owned_only, scoped, tenant_query,
}
use phone_control.Tenant.Documented.{matches, Documented}
use phone_control.Tenant.Foreign.{scope}
use phone_control.Tenant.Isolation.{tenant_query-scope}

-- The models with a column company_id.
abbrev pub carries_company : Model → Bool
carries_company Model.company = false
carries_company Model.admin_refresh_token = false
carries_company Model.device_credential = false
carries_company _ = true

unfiltered :
    (query : Query) (ctx : Option RequestContext) (m : Model) (op : Operation) (a : Args)
    (rows : List Row)
    → is_tenant_model m ≡ false
    → tenant_query query ctx m op a rows ≡ query m op a rows
unfolding tenant_query
unfiltered query none m op a rows h = refl
unfiltered query (some ctx) m op a rows h = elim (Bool-cases ctx.cross_tenant) [
  | inl system ↦ rw system refl
  | inr scoped ↦ rw (scoped, h) refl
]

-- Of the models with a column company_id, all are filtered but the sharing sessions and the
-- application packages: an operation on these two goes to Prisma as it is, in any context.
pub tenant_query_unscoped :
    (query : Query) (ctx : Option RequestContext) (m : Model) (op : Operation) (a : Args)
    (rows : List Row)
    → carries_company m ≡ true
    → (is_tenant_model m ≡ true)
      ⊎ (((m ≡ Model.screen_share_session) ⊎ (m ≡ Model.app_package))
          × (tenant_query query ctx m op a rows ≡ query m op a rows))
unfolding tenant_query is_tenant_model
tenant_query_unscoped query ctx Model.screen_share_session op a rows h =
    inr (inl refl, unfiltered query ctx _ op a rows refl)
tenant_query_unscoped query ctx Model.app_package op a rows h =
    inr (inr refl, unfiltered query ctx _ op a rows refl)
tenant_query_unscoped query ctx Model.admin_refresh_token op a rows h = absurd (cc h)
tenant_query_unscoped query ctx Model.device_credential op a rows h = absurd (cc h)
tenant_query_unscoped query ctx _ op a rows h = inl refl

-- Where the row of the company satisfies the rest of the caller's filter, an update or a deletion
-- runs with the caller's arguments as they are: also with a filter that names another company.
pub tenant_query_escapes :
    (query : Query) (m : Model) (op : Operation) (c : ℕ) (a : Args) (rows : List Row) (own : Row)
    → Documented query
    → is_tenant_model m ≡ true
    → kind_of op ≡ Kind.unique_write
    → Within own rows
    → a.filter.rest own ≡ true
    → tenant_of m own ≡ c
    → tenant_query query (scope c) m op a rows ≡ query m op a rows
unfolding scoped
tenant_query_escapes query m op c a rows own prisma tenant k w h mine =
    let held : matches m (owned_only c a).filter own ≡ true =
      rw (h, (==_iff (tenant_of m own) c).1 mine) refl in
    let found = prisma.finds m (owned_only c a) rows own w held in
    tenant_query-scope query m op c a rows tenant ∙ rw (k, found.1) refl
