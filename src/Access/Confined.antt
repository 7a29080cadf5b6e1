-- ===== src/Access/Confined.antt =====
-- The guard and the filter of the companies together: what a caller who passed can reach.
use phone_control.Common.{
  ℕ, ◌≡◌, ◌⊎◌, ◌∙◌, refl, inl, inr, true, false, List, Option, none, some, Option-cases, All, arith,
}
use phone_control.Common.Ids.{Within, All-of_Within, All-Within}
use phone_control.Store.{done}
use phone_control.Store.Enums.{AdminRole}
use phone_control.Tenant.{
  Query, Model, Operation, Args, Row, RequestContext, tenant_of, tenant_query, is_tenant_model,
}
use phone_control.Tenant.Documented.{Documented}
use phone_control.Tenant.Foreign.{scope}
use phone_control.Tenant.Isolation.{IsReading, tenant_query_reads}
use phone_control.Access.{
  Setting, Route, Call, passed, AuthKind, admin_route, device_route, AuthenticatedAdmin,
  AuthenticatedDevice, is_super, kind_or_admin, can_activate,
}
use phone_control.Access.Admitted.{
  IsAdminAdmitted, IsDeviceAdmitted, can_activate_admin, can_activate_device,
}

-- A request made for a super administrator without a company.
abbrev pub IsSuper : Call → Type 0
IsSuper call =
    (a : AuthenticatedAdmin) × (call.admin ≡ some a)
    × (a.role ≡ AdminRole.super_admin)
    × (a.company_id ≡ none)

-- The administrator or the phone of the request has this company.
abbrev pub IsOf : AuthKind → Call → ℕ → Type 0
IsOf admin_route call c = (a : AuthenticatedAdmin) × (call.admin ≡ some a) × (a.company_id ≡ some c)
IsOf _ call c = (d : AuthenticatedDevice) × (call.device ≡ some d) × (d.company_id ≡ c)

confined :
    (query : Query) (ctx : RequestContext) (c : ℕ)
    → ctx.company_id ≡ some c
    → ctx.cross_tenant ≡ false
    → tenant_query query (some ctx) ≡ tenant_query query (scope c)
unfolding tenant_query
confined query ctx c own stays = rw (stays, own) refl

module _ (setting : Setting) (query : Query) where
  -- The queries of a call that passed are those in the scope of the caller's company, or the caller is
  -- a super administrator.
  abbrev IsConfined : AuthKind → Call → Type 0
  IsConfined kind next =
      IsSuper next
      ⊎ ((c : ℕ) × IsOf kind next c
          × (tenant_query query next.context ≡ tenant_query query (scope c)))

  admin_admitted-IsConfined :
      (roles : Option (List AdminRole)) (call next : Call)
      → IsAdminAdmitted setting roles call next
      → IsConfined admin_route next
  admin_admitted-IsConfined roles call next
        (token, p, a, ctx, b, ok, typ, row, present, active, able, placed, have, same) =
      rw same (elim (Option-cases a.company_id) [
        | inl homeless ↦ elim placed [
          | inl role ↦ inl (_, refl, role, homeless)
          | inr (c, own) ↦ absurd (cc (homeless, own))
        ]
        | inr (c, own) ↦
            let stays : is_super setting a ≡ false = rw own (ground arith) in
            inr (c, (_, refl, own), confined query _ c own stays)
      ])

  device_admitted-IsConfined :
      (call next : Call) → IsDeviceAdmitted setting call next → IsConfined device_route next
  device_admitted-IsConfined call next
        (token, p, d, ctx, b, ok, typ, row, present, enrolled, have, same) =
      rw same (inr (d.company_id, (_, refl, refl), confined query _ d.company_id refl refl))

  can_activate-IsConfined :
      (route : Route) (kind : AuthKind) (call next : Call)
      → kind_or_admin setting route.auth_kind ≡ kind
      → (kind ≡ admin_route) ⊎ (kind ≡ device_route)
      → can_activate setting route call ≡ (passed, next)
      → IsConfined kind next
  can_activate-IsConfined route kind call next k (inl a) e = rw a (
      admin_admitted-IsConfined route.roles call next
        ((can_activate_admin setting route call next (k ∙ a)).0 e))
  can_activate-IsConfined route kind call next k (inr d) e = rw d (
      device_admitted-IsConfined call next
        ((can_activate_device setting route call next (k ∙ d)).0 e))

  -- A caller who passed on a route for administrators or for phones, with whatever context the
  -- request began, reads, in the filtered models, rows of their own company only, or is a super
  -- administrator without a company.
  pub can_activate_reads :
      (route : Route) (kind : AuthKind) (call next : Call) (m : Model) (op : Operation) (a : Args)
      (rows found : List Row)
      → kind_or_admin setting route.auth_kind ≡ kind
      → (kind ≡ admin_route) ⊎ (kind ≡ device_route)
      → can_activate setting route call ≡ (passed, next)
      → Documented query
      → is_tenant_model m ≡ true
      → IsReading op
      → (tenant_query query next.context m op a rows).0 ≡ done found
      → IsSuper next
        ⊎ ((c : ℕ) × IsOf kind next c × All (λ r. Within r rows × (tenant_of m r ≡ c)) found)
  can_activate_reads route kind call next m op a rows found k authenticated e prisma tenant reads
        f =
      elim (can_activate-IsConfined route kind call next k authenticated e) [
        | inl super ↦ inl super
        | inr (c, of_c, same) ↦ inr (c, of_c, own c (rw same at f))
      ]
    where
      own :
          (c : ℕ)
          → (tenant_query query (scope c) m op a rows).0 ≡ done found
          → All (λ r. Within r rows × (tenant_of m r ≡ c)) found
      own c f =
          let held = tenant_query_reads query m op c a rows found prisma tenant reads f in
          All-of_Within _ found (λ r w. let h = All-Within _ found r held w in (h.0, h.2))
