-- ===== src/Access.antt =====
-- apps/api/src/auth/access.guard.ts: the guard in front of every route. It authenticates the caller
-- and fills the context that the filter of the companies reads. A text is the list of its UTF-16
-- code units; the verification of a JWT and UTF-8 are parameters.
pub mod Roles
pub mod Admitted
pub mod Confined
use phone_control.Common.{
  ℕ, Bool, false, not, ◌&&◌, ◌||◌, List, [], ◌∷◌, Option, none, some, ◌==◌, ltb, length,
  if◌then◌else◌, any, is_some, find_first,
}
use phone_control.Common.Texts.{trim, is_empty, same_text, before_char, after_char, lower}
use phone_control.Rules.Clock.{Text}
use phone_control.Store.Enums.{
  AdminRole, super_admin, company_admin, depot_admin, viewer, AdminStatus, is_active_admin,
  is_enrolled,
}
use phone_control.Store.{Device}
use phone_control.Tenant.{RequestContext}

pub data AuthKind : Type 0 where
  public_route admin_route device_route service_route : AuthKind

-- `typ` of a payload.
pub data TokenType : Type 0 where
  admin device other : TokenType

pub record Payload : Type 0 where
  pub sub : ℕ
  pub typ : TokenType

-- What the guard reads of an administrator.
pub record Admin : Type 0 where
  pub id : ℕ
  pub company_id : Option ℕ
  pub role : AdminRole
  pub depot_scope : List ℕ
  pub status : AdminStatus
  pub deleted_at : Option ℕ

pub record AuthenticatedAdmin : Type 0 where
  pub id : ℕ
  pub company_id : Option ℕ
  pub role : AdminRole
  pub depot_scope : List ℕ

pub record AuthenticatedDevice : Type 0 where
  pub id : ℕ
  pub company_id : ℕ
  pub depot_id : Option ℕ

-- What the decorators of a route say; without AUTH_KIND it is for administrators.
pub record Route : Type 0 where
  pub auth_kind : Option AuthKind
  pub roles : Option (List AdminRole)

-- What the guard is built on, and the two tables that it reads.
pub record Setting : Type 0 where
  pub verify_access : Text → Option Payload
  pub verify_device : Text → Option Payload
  pub service_token : Option Text
  pub utf8 : Text → List ℕ
  pub admins : List Admin
  pub devices : List Device

-- The request and the context of the request, which the guard writes.
pub record Call : Type 0 where
  pub authorization : Option Text
  pub admin : Option AuthenticatedAdmin
  pub device : Option AuthenticatedDevice
  pub context : Option RequestContext

pub data Denial : Type 0 where
  missing_token invalid_token wrong_type inactive_admin insufficient_role no_company : Denial
  revoked_device not_configured short_token wrong_token no_context : Denial

pub data Verdict : Type 0 where
  passed : Verdict
  refused : Denial → Verdict

abbrev pub role_index : AdminRole → ℕ
role_index super_admin = 0
role_index company_admin = 1
role_index depot_admin = 2
role_index viewer = 3

abbrev pub same_role : AdminRole → AdminRole → Bool
same_role a b = role_index a == role_index b

-- "bearer"
abbrev pub bearer : Text
bearer = b'b' ∷ b'e' ∷ b'a' ∷ b'r' ∷ b'e' ∷ b'r' ∷ []

-- No letter beyond ASCII has a letter of the word as its lower case.
unfoldable pub extract_bearer : Option Text → Option Text
extract_bearer none = none
extract_bearer (some header) = elim (after_char 32 header) [
  | none ↦ none
  | some rest ↦
      if is_empty (before_char 32 rest) || not (same_text (lower (before_char 32 header)) bearer)
      then none
      else some (trim (before_char 32 rest))
]

abbrev pub min_service_token : ℕ
min_service_token = 32

abbrev pub same_token : (utf8 : Text → List ℕ) → Text → Text → Bool
same_token utf8 given expected =
    length (utf8 given) == length (utf8 expected) && same_text (utf8 given) (utf8 expected)

module _ (setting : Setting) where
  abbrev pub check_service : (token expected : Text) → Verdict
  check_service token expected =
      if is_empty expected
      then refused not_configured
      else if ltb (length expected) min_service_token
      then refused short_token
      else if same_token setting.utf8 token expected
      then passed
      else refused wrong_token

  unfoldable pub authenticate_service : Text → Call → Verdict × Call
  authenticate_service token call = elim setting.service_token [
    | none ↦ (refused not_configured, call)
    | some expected ↦ (check_service token (trim expected), call)
  ]

  abbrev pub is_live_admin : Admin → Bool
  is_live_admin a = not (is_some a.deleted_at) && is_active_admin a.status

  -- `roles && roles.length > 0 && !roles.includes(admin.role)`
  abbrev pub lacks_role : Option (List AdminRole) → AdminRole → Bool
  lacks_role none role = false
  lacks_role (some []) role = false
  lacks_role (some (r ∷ rs)) role = not (any (same_role role) (r ∷ rs))

  abbrev pub is_super : Admin → Bool
  is_super a = same_role a.role super_admin && not (is_some a.company_id)

  abbrev pub is_homeless : Admin → Bool
  is_homeless a = not (is_super a) && not (is_some a.company_id)

  abbrev pub admin_context : Admin → RequestContext → RequestContext
  admin_context a ctx = record ctx {
    admin_id = some a.id;
    role = some a.role;
    depot_scope = a.depot_scope;
    company_id = a.company_id;
    cross_tenant = is_super a;
  }

  abbrev pub identity : Admin → AuthenticatedAdmin
  identity a = record {
    id = a.id;
    company_id = a.company_id;
    role = a.role;
    depot_scope = a.depot_scope;
  }

  -- From the writing of `req.admin` on.
  abbrev pub admit_admin : Admin → Call → Verdict × Call
  admit_admin a call = elim call.context [
    | none ↦ (refused no_context, record call { admin = some (identity a) })
    | some ctx ↦ (
      if not (is_super a) && not (is_some a.company_id) then refused no_company else passed,
      record call { admin = some (identity a); context = some (admin_context a ctx) },
    )
  ]

  abbrev pub check_admin : Option (List AdminRole) → Option Admin → Call → Verdict × Call
  check_admin roles none call = (refused inactive_admin, call)
  check_admin roles (some a) call =
      if not (is_live_admin a)
      then (refused inactive_admin, call)
      else if lacks_role roles a.role
      then (refused insufficient_role, call)
      else admit_admin a call

  abbrev pub check_admin_payload : Option (List AdminRole) → Payload → Call → Verdict × Call
  check_admin_payload roles p call = elim p.typ [
    | admin ↦ check_admin roles (find_first (λ a. a.id == p.sub) setting.admins) call
    | _ ↦ (refused wrong_type, call)
  ]

  unfoldable pub authenticate_admin : Option (List AdminRole) → Text → Call → Verdict × Call
  authenticate_admin roles token call = elim (setting.verify_access token) [
    | none ↦ (refused invalid_token, call)
    | some p ↦ check_admin_payload roles p call
  ]

  abbrev pub device_context : Device → RequestContext → RequestContext
  device_context d ctx = record ctx {
    device_id = some d.id;
    company_id = some d.company_id;
    cross_tenant = false;
  }

  abbrev pub device_identity : Device → AuthenticatedDevice
  device_identity d = record { id = d.id; company_id = d.company_id; depot_id = d.depot_id }

  -- From the writing of `req.device` on.
  abbrev pub admit_device : Device → Call → Verdict × Call
  admit_device d call = elim call.context [
    | none ↦ (refused no_context, record call { device = some (device_identity d) })
    | some ctx ↦ (
      passed,
      record call { device = some (device_identity d); context = some (device_context d ctx) },
    )
  ]

  abbrev pub is_enrolled_device : Device → Bool
  is_enrolled_device d = not (is_some d.deleted_at) && is_enrolled d.enrollment_status

  abbrev pub check_device_row : Option Device → Call → Verdict × Call
  check_device_row none call = (refused revoked_device, call)
  check_device_row (some d) call =
      if is_enrolled_device d then admit_device d call else (refused revoked_device, call)

  abbrev pub check_device_payload : Payload → Call → Verdict × Call
  check_device_payload p call = elim p.typ [
    | device ↦ check_device_row (find_first (λ d. d.id == p.sub) setting.devices) call
    | _ ↦ (refused wrong_type, call)
  ]

  unfoldable pub authenticate_device : Text → Call → Verdict × Call
  authenticate_device token call = elim (setting.verify_device token) [
    | none ↦ (refused invalid_token, call)
    | some p ↦ check_device_payload p call
  ]

  -- For a route that is not public, with the token that the header bears.
  abbrev pub authenticate_as : AuthKind → Option (List AdminRole) → Text → Call → Verdict × Call
  authenticate_as public_route roles token call = (passed, call)
  authenticate_as service_route roles token call = authenticate_service token call
  authenticate_as device_route roles token call = authenticate_device token call
  authenticate_as admin_route roles token call = authenticate_admin roles token call

  abbrev pub kind_or_admin : Option AuthKind → AuthKind
  kind_or_admin none = admin_route
  kind_or_admin (some kind) = kind

  abbrev pub with_token : AuthKind → Option (List AdminRole) → Option Text → Call → Verdict × Call
  with_token kind roles none call = (refused missing_token, call)
  with_token kind roles (some token) call =
      if is_empty token
      then (refused missing_token, call)
      else authenticate_as kind roles token call

  abbrev pub guard_kind : AuthKind → Option (List AdminRole) → Call → Verdict × Call
  guard_kind public_route roles call = (passed, call)
  guard_kind kind roles call = with_token kind roles (extract_bearer call.authorization) call

  unfoldable pub can_activate : Route → Call → Verdict × Call
  unfolding extract_bearer authenticate_service authenticate_admin authenticate_device
  can_activate route call = guard_kind (kind_or_admin route.auth_kind) route.roles call
