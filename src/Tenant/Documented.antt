-- ===== src/Tenant/Documented.antt =====
-- What apps/api/src/prisma/tenant-extension.ts relies on of Prisma.
use phone_control.Common.{
  ℕ, ◌≡◌, ◌⊎◌, Bool, true, not, ◌&&◌, List, [], ◌∷◌, ◌++◌, Option, none, some, map, ◌==◌, keep,
  update_where, All,
}
use phone_control.Common.Ids.{Within}
use phone_control.Store.{done}
use phone_control.Tenant.{
  Model, Operation, Kind, kind_of, Row, Where, Given, value, NewRow, Args, Query, tenant_of,
}

abbrev pub is_of : Model → Option ℕ → Row → Bool
is_of m none r = true
is_of m (some c) r = tenant_of m r == c

abbrev pub matches : Model → Where → Row → Bool
matches m w r = w.rest r && is_of m w.tenant r

-- A row without a company is of none, which the number 0 stands for.
abbrev pub company_given : Given → ℕ
company_given (value c) = c
company_given _ = 0

-- The row of a company is its own company, and never created in the scope of one.
abbrev pub row_of : NewRow → Row
row_of n = record { id = n.id; company_id = company_given n.tenant; content = n.content }

-- The table after a write that succeeds; every other operation leaves it.
abbrev pub written : Operation → Model → Args → List Row → List Row
written Operation.update m a rows = update_where (matches m a.filter) a.change rows
written Operation.update_many m a rows = update_where (matches m a.filter) a.change rows
written Operation.delete m a rows = keep (λ r. not (matches m a.filter r)) rows
written Operation.delete_many m a rows = keep (λ r. not (matches m a.filter r)) rows
written Operation.create m a rows = rows ++ map row_of a.new_rows
written Operation.create_many m a rows = rows ++ map row_of a.new_rows
written Operation.create_many_and_return m a rows = rows ++ map row_of a.new_rows
written _ m a rows = rows

-- A read answers with rows of the table that match (a count counts them), findFirst with one of
-- them if there is one, and a write is made, or fails and leaves the table.
pub record Documented (query : Query) : Type 0 where
  pub answers :
      (m : Model) (op : Operation) (a : Args) (rows found : List Row)
      → kind_of op ≡ Kind.read
      → (query m op a rows).0 ≡ done found
      → All (λ r. Within r rows × (matches m a.filter r ≡ true)) found
  pub finds :
      (m : Model) (a : Args) (rows : List Row) (r : Row)
      → Within r rows
      → matches m a.filter r ≡ true
      → (f : Row) × ((query m Operation.find_first a rows).0 ≡ done (f ∷ []))
  pub writes :
      (m : Model) (op : Operation) (a : Args) (rows : List Row)
      → ((query m op a rows).1 ≡ rows) ⊎ ((query m op a rows).1 ≡ written op m a rows)
