-- ===== src/Examples/Guards.antt =====
-- Callers at the guard.
use phone_control.Common.{
  ℕ, zero, suc, ◌≡◌, ◌⊎◌, inl, inr, refl, true, [], ◌∷◌, none, some, arith, All,
}
use phone_control.Common.Ids.{Within}
use phone_control.Rules.Clock.{Text}
use phone_control.Store.Enums.{AdminRole, AdminStatus}
use phone_control.Tenant.{Model, Operation, tenant_query, scoped, is_tenant_model}
use phone_control.Access.{
  Setting, Route, Call, Admin, TokenType, AuthKind, admin_route, device_route, service_route,
  passed, extract_bearer, can_activate, authenticate_admin, authenticate_device,
}
use phone_control.Access.Admitted.{
  IsAdminAdmitted, IsDeviceAdmitted, can_activate_admin, can_activate_device, can_activate_service,
}
use phone_control.Access.Confined.{IsSuper, IsOf, can_activate_reads}
use phone_control.Examples.{phone}
use phone_control.Examples.Memory.{memory, memory-Documented, rows, by_id}

-- "Bearer k", and 32 letters as the token of the service
abbrev pub header : Text
header = b'B' ∷ b'e' ∷ b'a' ∷ b'r' ∷ b'e' ∷ b'r' ∷ 32 ∷ b'k' ∷ []

abbrev repeated : ℕ → Text
repeated zero = []
repeated (suc n) = b'k' ∷ repeated n

abbrev director : Admin
director = record {
  id = 90;
  company_id = some 10;
  role = AdminRole.company_admin;
  depot_scope = [];
  status = AdminStatus.active;
  deleted_at = none;
}

abbrev pub setting : Setting
setting = record {
  verify_access = λ token. some (record { sub = 90; typ = TokenType.admin });
  verify_device = λ token. some (record { sub = 7; typ = TokenType.device });
  service_token = some (32 ∷ repeated 32);
  utf8 = λ text. text;
  admins = director ∷ [];
  devices = phone ∷ [];
}

abbrev pub route : AuthKind → Route
route kind = record { auth_kind = some kind; roles = none }

-- The request begins in a context that crosses the companies.
abbrev pub call : Text → Call
call text = record {
  authorization = some text;
  admin = none;
  device = none;
  context = some (record {
    company_id = none;
    admin_id = none;
    device_id = none;
    role = none;
    depot_scope = [];
    cross_tenant = true;
  });
}

can_activate_admin_example :
    IsAdminAdmitted setting none
      (call header)
      (can_activate setting (route admin_route) (call header)).1
unfolding can_activate authenticate_admin extract_bearer
can_activate_admin_example =
    (can_activate_admin setting (route admin_route) (call header) _ refl).0 refl

can_activate_device_example :
    IsDeviceAdmitted setting
      (call header)
      (can_activate setting (route device_route) (call header)).1
unfolding can_activate authenticate_device extract_bearer
can_activate_device_example =
    (can_activate_device setting (route device_route) (call header) _ refl).0 refl

abbrev service_header : Text
service_header = b'B' ∷ b'e' ∷ b'a' ∷ b'r' ∷ b'e' ∷ b'r' ∷ 32 ∷ repeated 32

can_activate_service_example :
    can_activate setting (route service_route) (call service_header) ≡ (passed, call service_header)
unfolding extract_bearer
can_activate_service_example =
    (can_activate_service setting (route service_route) (call service_header) _ refl).1
      (repeated 32, 32 ∷ repeated 32, (refl, refl), refl, omega arith, refl, refl)

can_activate_reads_example :
    let next = (can_activate setting (route admin_route) (call header)).1 in
    IsSuper next
    ⊎ ((c : ℕ) × IsOf admin_route next c
        × All
            (λ r. Within r rows × (r.company_id ≡ c))
            (record { id = 1; company_id = 10; content = 0 } ∷ []))
unfolding can_activate authenticate_admin extract_bearer is_tenant_model tenant_query scoped
can_activate_reads_example =
    can_activate_reads setting memory (route admin_route) admin_route (call header) _ Model.device
      Operation.find_unique by_id rows _ refl (inl refl) refl memory-Documented refl (inr refl) refl
