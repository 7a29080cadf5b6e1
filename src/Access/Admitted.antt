-- ===== src/Access/Admitted.antt =====
-- Who passes the guard, and with which context.
use phone_control.Common.{
  ◌≡◌, ◌↔◌, refl, sym, ap, inl, inr, true, false, List, none, Option, some, find_first, Bool-cases,
  Option-cases, ◌==◌, arith, ◌≤◌, length,
}
use phone_control.Common.Texts.{is_empty, trim, same_text, same_text_sound, same_text_refl}
use phone_control.Rules.Clock.{Text}
use phone_control.Store.Enums.{AdminRole, AdminStatus, EnrollmentStatus}
use phone_control.Store.{Device}
use phone_control.Tenant.{RequestContext}
use phone_control.Access.Roles.{
  IsAllowedRole, IsPlaced, active_status, enrolled_status, lacks_role_iff, is_homeless_iff,
}
use phone_control.Access.{
  Setting, Route, Call, Payload, TokenType, Admin, Verdict, passed, AuthKind, admin_route,
  device_route, service_route, min_service_token, same_token, check_service, authenticate_service,
  extract_bearer, is_live_admin, lacks_role, is_homeless, identity, admin_context, check_admin,
  check_admin_payload, authenticate_admin, device_identity, device_context, is_enrolled_device,
  check_device_row, check_device_payload, authenticate_device, with_token, authenticate_as,
  kind_or_admin, can_activate,
}

-- The token of the header is not empty.
abbrev pub Bears : Call → Text → Type 0
Bears call token = (extract_bearer call.authorization ≡ some token) × (is_empty token ≡ false)

module _ (setting : Setting) where
  abbrev pub IsAdminAdmitted : Option (List AdminRole) → Call → Call → Type 0
  IsAdminAdmitted roles call next =
      (token : Text) × (p : Payload) × (a : Admin) × (ctx : RequestContext) × Bears call token
      × (setting.verify_access token ≡ some p)
      × (p.typ ≡ TokenType.admin)
      × (find_first (λ a. a.id == p.sub) setting.admins ≡ some a)
      × (a.deleted_at ≡ none)
      × (a.status ≡ AdminStatus.active)
      × IsAllowedRole roles a.role
      × IsPlaced a
      × (call.context ≡ some ctx)
      × (next ≡ record call {
        admin = some (identity setting a);
        context = some (admin_context setting a ctx);
      })

  abbrev pub IsDeviceAdmitted : Call → Call → Type 0
  IsDeviceAdmitted call next =
      (token : Text) × (p : Payload) × (d : Device) × (ctx : RequestContext) × Bears call token
      × (setting.verify_device token ≡ some p)
      × (p.typ ≡ TokenType.device)
      × (find_first (λ d. d.id == p.sub) setting.devices ≡ some d)
      × (d.deleted_at ≡ none)
      × (d.enrollment_status ≡ EnrollmentStatus.enrolled)
      × (call.context ≡ some ctx)
      × (next ≡ record call {
        device = some (device_identity setting d);
        context = some (device_context setting d ctx);
      })

  abbrev Passes : Verdict × Call → Call → Type 0
  Passes r next = r ≡ (passed, next)

  admitted_row :
      (roles : Option (List AdminRole)) (a : Admin) (call next : Call)
      → Passes (check_admin setting roles (some a) call) next
      → (ctx : RequestContext) × (a.deleted_at ≡ none)
        × (a.status ≡ AdminStatus.active)
        × IsAllowedRole roles a.role
        × IsPlaced a
        × (call.context ≡ some ctx)
        × (next ≡ record call {
          admin = some (identity setting a);
          context = some (admin_context setting a ctx);
        })
  admitted_row roles a call next e = elim (Bool-cases (is_live_admin setting a)) [
    | inr dead ↦ absurd (cc (rw dead at e))
    | inl live ↦ elim (Bool-cases (lacks_role setting roles a.role)) [
      | inl lacking ↦ absurd (cc (rw (live, lacking) at e))
      | inr able ↦ elim (Option-cases call.context) [
        | inl bare ↦ absurd (cc (rw (live, able, bare) at e))
        | inr (ctx, have) ↦ elim (Bool-cases (is_homeless setting a)) [
          | inl homeless ↦ absurd (cc (rw (live, able, have, homeless) at e))
          | inr placed ↦
              let (present, active) = (active_status a.deleted_at a.status).0 live in
              (
                ctx,
                present,
                active,
                (lacks_role_iff setting roles a.role).0 able,
                (is_homeless_iff setting a).0 placed,
                have,
                sym (ap (λ r. r.1) (rw (live, able, have, placed) at e)),
              )
        ]
      ]
    ]
  ]

  pub authenticate_admin_inversion :
      (roles : Option (List AdminRole)) (token : Text) (call next : Call)
      → Bears call token
      → Passes (authenticate_admin setting roles token call) next
      → IsAdminAdmitted roles call next
  unfolding authenticate_admin
  authenticate_admin_inversion roles token call next b e =
      elim (Option-cases (setting.verify_access token)) [
        | inl bad ↦ absurd (cc (rw (authenticate_admin, bad) at e))
        | inr (p, ok) ↦ typed p ok p.typ refl (rw (authenticate_admin, ok) at e)
      ]
    where
      found :
          (p : Payload)
          → setting.verify_access token ≡ some p
          → p.typ ≡ TokenType.admin
          → Passes
              (check_admin setting roles (find_first (λ a. a.id == p.sub) setting.admins) call)
              next
          → IsAdminAdmitted roles call next
      found p ok typ e = elim (Option-cases (find_first (λ a. a.id == p.sub) setting.admins)) [
        | inl missing ↦ absurd (cc (rw missing at e))
        | inr (a, row) ↦
            let (ctx, present, active, able, placed, have, same) =
              admitted_row roles a call next (rw row at e) in
            (token, p, a, ctx, b, ok, typ, row, present, active, able, placed, have, same)
      ]

      typed :
          (p : Payload)
          → setting.verify_access token ≡ some p
          → (t : TokenType) → p.typ ≡ t
          → Passes (check_admin_payload setting roles p call) next
          → IsAdminAdmitted roles call next
      typed p ok TokenType.admin typ e = found p ok typ (rw typ at e)
      typed p ok TokenType.device typ e = absurd (cc (rw typ at e))
      typed p ok TokenType.other typ e = absurd (cc (rw typ at e))

  admitted_device_row :
      (d : Device) (call next : Call)
      → Passes (check_device_row setting (some d) call) next
      → (ctx : RequestContext) × (d.deleted_at ≡ none)
        × (d.enrollment_status ≡ EnrollmentStatus.enrolled)
        × (call.context ≡ some ctx)
        × (next ≡ record call {
          device = some (device_identity setting d);
          context = some (device_context setting d ctx);
        })
  admitted_device_row d call next e = elim (Bool-cases (is_enrolled_device setting d)) [
    | inr dead ↦ absurd (cc (rw dead at e))
    | inl live ↦ elim (Option-cases call.context) [
      | inl bare ↦ absurd (cc (rw (live, bare) at e))
      | inr (ctx, have) ↦ (
        ctx,
        ((enrolled_status d.deleted_at d.enrollment_status).0 live).0,
        ((enrolled_status d.deleted_at d.enrollment_status).0 live).1,
        have,
        sym (ap (λ r. r.1) (rw (live, have) at e)),
      )
    ]
  ]

  pub authenticate_device_inversion :
      (token : Text) (call next : Call)
      → Bears call token
      → Passes (authenticate_device setting token call) next
      → IsDeviceAdmitted call next
  unfolding authenticate_device
  authenticate_device_inversion token call next b e =
      elim (Option-cases (setting.verify_device token)) [
        | inl bad ↦ absurd (cc (rw (authenticate_device, bad) at e))
        | inr (p, ok) ↦ typed p ok p.typ refl (rw (authenticate_device, ok) at e)
      ]
    where
      found :
          (p : Payload)
          → setting.verify_device token ≡ some p
          → p.typ ≡ TokenType.device
          → Passes
              (check_device_row setting (find_first (λ d. d.id == p.sub) setting.devices) call)
              next
          → IsDeviceAdmitted call next
      found p ok typ e = elim (Option-cases (find_first (λ d. d.id == p.sub) setting.devices)) [
        | inl missing ↦ absurd (cc (rw missing at e))
        | inr (d, row) ↦
            let (ctx, present, enrolled, have, same) =
              admitted_device_row d call next (rw row at e) in
            (token, p, d, ctx, b, ok, typ, row, present, enrolled, have, same)
      ]

      typed :
          (p : Payload)
          → setting.verify_device token ≡ some p
          → (t : TokenType) → p.typ ≡ t
          → Passes (check_device_payload setting p call) next
          → IsDeviceAdmitted call next
      typed p ok TokenType.device typ e = found p ok typ (rw typ at e)
      typed p ok TokenType.admin typ e = absurd (cc (rw typ at e))
      typed p ok TokenType.other typ e = absurd (cc (rw typ at e))

  -- The header bears a token, for any route that is not public.
  with_token_inversion :
      (kind : AuthKind) (roles : Option (List AdminRole)) (call next : Call)
      → Passes (with_token setting kind roles (extract_bearer call.authorization) call) next
      → (token : Text) × Bears call token
        × Passes (authenticate_as setting kind roles token call) next
  with_token_inversion kind roles call next e =
      elim (Option-cases (extract_bearer call.authorization)) [
        | inl bare ↦ absurd (cc (rw bare at e))
        | inr (token, have) ↦ elim (Bool-cases (is_empty token)) [
          | inl blank ↦ absurd (cc (rw (have, blank) at e))
          | inr text ↦ (token, (have, text), rw (have, text) at e)
        ]
      ]

  -- The guard lets a call to a route of administrators pass, with what it wrote, exactly if the
  -- header bears a token that verifies as one of an administrator who is in the table, active and
  -- not deleted, has one of the roles of the route where it names some, and has a company or is a
  -- super administrator; the context then has their company and crosses the companies only for a
  -- super administrator without one.
  pub can_activate_admin :
      (route : Route) (call next : Call)
      → kind_or_admin setting route.auth_kind ≡ admin_route
      → (can_activate setting route call ≡ (passed, next)) ↔ IsAdminAdmitted route.roles call next
  unfolding can_activate authenticate_admin
  can_activate_admin route call next k = (
    λ e.
        let t =
          with_token_inversion admin_route route.roles call next (rw (can_activate, k) at e) in
        authenticate_admin_inversion route.roles t.0 call next t.1 t.2,
    λ (token, p, a, ctx, b, ok, typ, row, present, active, able, placed, have, same).
        let live = (active_status a.deleted_at a.status).1 (present, active) in
        let able = (lacks_role_iff setting route.roles a.role).1 able in
        let placed = (is_homeless_iff setting a).1 placed in
        rw
          (
            can_activate, k, b.0, b.1, authenticate_admin, ok, typ, row, live, able, have, placed,
            same,
          )
          refl,
  )

  -- The guard lets a call of a phone pass, with what it wrote, exactly if the header bears a token
  -- that verifies as one of a phone that is in the table, enrolled and not deleted; the context
  -- then has its company and does not cross the companies.
  pub can_activate_device :
      (route : Route) (call next : Call)
      → kind_or_admin setting route.auth_kind ≡ device_route
      → (can_activate setting route call ≡ (passed, next)) ↔ IsDeviceAdmitted call next
  unfolding can_activate authenticate_device
  can_activate_device route call next k = (
    λ e.
        let t =
          with_token_inversion device_route route.roles call next (rw (can_activate, k) at e) in
        authenticate_device_inversion t.0 call next t.1 t.2,
    λ (token, p, d, ctx, b, ok, typ, row, present, enrolled, have, same).
        let live = (enrolled_status d.deleted_at d.enrollment_status).1 (present, enrolled) in
        rw (can_activate, k, b.0, b.1, authenticate_device, ok, typ, row, live, have, same) refl,
  )

  service_token_accepted :
      (token expected : Text)
      → (check_service setting token expected ≡ passed)
        ↔ ((min_service_token ≤ length expected) × (setting.utf8 token ≡ setting.utf8 expected))
  service_token_accepted token expected = (
    λ e. elim (Bool-cases (same_token setting.utf8 token expected)) [
      | inl same ↦
          let long : min_service_token ≤ length expected = ground arith in
          let both : same_text (setting.utf8 token) (setting.utf8 expected) ≡ true = ground arith in
          (long, same_text_sound _ _ both)
      | inr other ↦ absurd (ground (arith, e, other))
    ],
    λ (long, same).
        let equal : same_token setting.utf8 token expected ≡ true =
          rw same (rw (same_text_refl (setting.utf8 expected)) (ground arith)) in
        ground (arith, long, equal),
  )

  -- The guard lets a call of the service pass exactly if the header bears a token whose bytes are
  -- those of the configured one, without the space around it, and that one has 32 characters at
  -- least; the call is then left as it is, so that no company is opened.
  pub can_activate_service :
      (route : Route) (call next : Call)
      → kind_or_admin setting route.auth_kind ≡ service_route
      → (can_activate setting route call ≡ (passed, next)) ↔ (
          (token : Text) × (expected : Text) × Bears call token
          × (setting.service_token ≡ some expected)
          × (min_service_token ≤ length (trim expected))
          × (setting.utf8 token ≡ setting.utf8 (trim expected))
          × (next ≡ call))
  unfolding can_activate authenticate_service
  can_activate_service route call next k = (
    λ e.
        let t =
          with_token_inversion service_route route.roles call next (rw (can_activate, k) at e) in
        elim (Option-cases setting.service_token) [
          | inl none' ↦ absurd (cc (rw (authenticate_service, none') at t.2))
          | inr (expected, have) ↦
              let r = rw (authenticate_service, have) at t.2 in
              let good = (service_token_accepted t.0 (trim expected)).0 (ap (λ v. v.0) r) in
              (t.0, expected, t.1, have, good.0, good.1, sym (ap (λ v. v.1) r))
        ],
    λ (token, expected, b, have, long, same, kept).
        rw
          (
            can_activate,
            k,
            b.0,
            b.1,
            authenticate_service,
            have,
            (service_token_accepted token (trim expected)).1 (long, same),
            kept,
          )
          refl,
  )
