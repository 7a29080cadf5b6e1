-- ===== src/Tenant.antt =====
-- apps/api/src/prisma/tenant-extension.ts: the filter of the companies. Prisma is the parameter
-- `query`, on the rows of the model that is asked; the arguments keep the filter, split into what
-- concerns the company's column and the rest, the rows to create and the change to make.
pub mod Documented
pub mod Foreign
pub mod Isolation
pub mod Escapes
use phone_control.Common.{
  ℕ, ◌≡◌, ◌⊎◌, Bool, true, false, not, ◌&&◌, ◌||◌, List, [], ◌∷◌, ◌++◌, Option, none, some, map,
  ◌==◌, if◌then◌else◌, any, keep, update_where, All, found_is,
}
use phone_control.Common.Ids.{Within}
use phone_control.Store.Enums.{AdminRole}
use phone_control.Store.{Reply, done, raised, Error}

-- The models of apps/api/prisma/schema.prisma.
pub data Model : Type 0 where
  app_package screen_share_session company admin admin_refresh_token depot user badge device : Model
  device_credential enrollment_token device_assignment session geofence location_event : Model
  geofence_event barcode_scan_event security_event alert device_command device_settings : Model
  retention_policy audit_log : Model

-- TENANT_MODELS and COMPANY_MODEL
unfoldable pub is_tenant_model : Model → Bool
is_tenant_model app_package = false
is_tenant_model screen_share_session = false
is_tenant_model admin_refresh_token = false
is_tenant_model device_credential = false
is_tenant_model _ = true

abbrev pub is_company : Model → Bool
is_company company = true
is_company _ = false

-- `other_operation`: one that no set names, such as updateManyAndReturn.
pub data Operation : Type 0 where
  find_many find_first find_first_or_throw count aggregate group_by : Operation
  find_unique find_unique_or_throw update_many delete_many update delete : Operation
  create create_many create_many_and_return upsert other_operation : Operation

-- The sets of operations, each as a test.
pub data Kind : Type 0 where
  read unique_read bulk_write unique_write creation upsertion uncovered : Kind

abbrev pub kind_of : Operation → Kind
kind_of find_many = read
kind_of find_first = read
kind_of find_first_or_throw = read
kind_of count = read
kind_of aggregate = read
kind_of group_by = read
kind_of find_unique = unique_read
kind_of find_unique_or_throw = unique_read
kind_of update_many = bulk_write
kind_of delete_many = bulk_write
kind_of update = unique_write
kind_of delete = unique_write
kind_of create = creation
kind_of create_many = creation
kind_of create_many_and_return = creation
kind_of upsert = upsertion
kind_of other_operation = uncovered

-- A row: `content` stands for the other columns. The company of a company is itself.
pub record Row : Type 0 where
  pub id : ℕ
  pub company_id : ℕ
  pub content : ℕ

abbrev pub tenant_of : Model → Row → ℕ
tenant_of company r = r.id
tenant_of _ r = r.company_id

-- A filter: on the company's column, and on the others.
pub record Where : Type 0 where
  pub tenant : Option ℕ
  pub rest : Row → Bool

-- A column of a row to create.
pub data Given : Type 0 where
  undefined null : Given
  value : ℕ → Given

-- `tenant` is the column of the company.
pub record NewRow : Type 0 where
  pub id : ℕ
  pub tenant : Given
  pub content : ℕ

pub record Args : Type 0 where
  pub filter : Where
  pub new_rows : List NewRow
  pub change : Row → Row

abbrev pub merge_where : ℕ → Args → Args
merge_where c a = record a { filter = record { tenant = some c; rest = a.filter.rest } }

-- `check` of injectCompanyOnCreate: `none` for the error.
abbrev pub check : ℕ → NewRow → Option NewRow
check c row = elim row.tenant [
  | undefined ↦ some (record row { tenant = value c })
  | null ↦ none
  | value d ↦ if d == c then some (record row { tenant = value c }) else none
]

abbrev pub cons_checked : Option NewRow → Option (List NewRow) → Option (List NewRow)
cons_checked (some row) (some rows) = some (row ∷ rows)
cons_checked _ _ = none

unfoldable pub inject_company : ℕ → List NewRow → Option (List NewRow)
inject_company c [] = some []
inject_company c (row ∷ rows) = cons_checked (check c row) (inject_company c rows)

pub record RequestContext : Type 0 where
  pub company_id : Option ℕ
  pub admin_id : Option ℕ
  pub device_id : Option ℕ
  pub role : Option AdminRole
  pub depot_scope : List ℕ
  pub cross_tenant : Bool

abbrev pub Query : Type 0
Query = Model → Operation → Args → List Row → Reply (List Row) × List Row

abbrev pub as_first : Operation → Operation
as_first find_unique = find_first
as_first _ = find_first_or_throw

abbrev pub owned_only : ℕ → Args → Args
owned_only c a = record { filter = (merge_where c a).filter; new_rows = []; change = λ r. r }

module _ (query : Query) where
  -- After the ownership check.
  abbrev pub if_owned :
      Reply (List Row) → Model → Operation → Args → List Row → Reply (List Row) × List Row
  if_owned (raised e) model op args rows = (raised e, rows)
  if_owned (done []) model op args rows = (raised Error.tenant_isolation, rows)
  if_owned (done (r ∷ rs)) model op args rows = query model op args rows

  abbrev pub create_injected :
      Option (List NewRow) → Model → Operation → Args → List Row → Reply (List Row) × List Row
  create_injected none model op args rows = (raised Error.tenant_isolation, rows)
  create_injected (some checked) model op args rows =
      query model op (record args { new_rows = checked }) rows

  unfoldable pub scoped : ℕ → Kind → Query
  unfolding inject_company
  scoped c read model op args rows = query model op (merge_where c args) rows
  scoped c bulk_write model op args rows = query model op (merge_where c args) rows
  scoped c unique_read model op args rows = query model (as_first op) (merge_where c args) rows
  scoped c unique_write model op args rows =
      if_owned (query model find_first (owned_only c args) rows).0 model op args rows
  scoped c creation model op args rows =
      if is_company model
      then (raised Error.tenant_isolation, rows)
      else create_injected (inject_company c args.new_rows) model op args rows
  scoped c upsertion model op args rows = (raised Error.tenant_isolation, rows)
  scoped c uncovered model op args rows = query model op args rows

  -- `$allOperations`
  unfoldable pub tenant_query : Option RequestContext → Query
  unfolding scoped is_tenant_model
  tenant_query none model op args rows = query model op args rows
  tenant_query (some ctx) model op args rows =
      if ctx.cross_tenant
      then query model op args rows
      else if not (is_tenant_model model)
      then query model op args rows
      else elim ctx.company_id [
        | none ↦ (raised Error.tenant_isolation, rows)
        | some c ↦ scoped c (kind_of op) model op args rows
      ]
