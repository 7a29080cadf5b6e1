-- ===== src/Login/Effects.antt =====
-- A handler that uses the database and Redis.
use phone_control.Store.{Db, M, Reply, done, raised}

abbrev pub Exec : Type 0 → Type 0 → Type 0
Exec ρ A = Db × ρ → Reply A × Db × ρ

module _ {ρ : Type 0} where
  abbrev pub continue : {A B : Type 0} → Reply A × Db × ρ → (A → Exec ρ B) → Reply B × Db × ρ
  continue (done a, db, s) f = f a (db, s)
  continue (raised e, db, s) f = (raised e, db, s)

  infixl 5 ◌>>=◌ ◌>>◌
  unfoldable pub ◌>>=◌ : {A B : Type 0} → Exec ρ A → (A → Exec ρ B) → Exec ρ B
  ◌>>=◌ m f x = continue (m x) f

  abbrev pub ◌>>◌ : {B : Type 0} → Exec ρ (Unit {0}) → Exec ρ B → Exec ρ B
  m >> k = m >>= λ _. k

  unfoldable pub answer : {A : Type 0} → A → Exec ρ A
  answer a (db, s) = (done a, db, s)

  abbrev pub nothing : Exec ρ (Unit {0})
  nothing = answer tt

  abbrev pub beside : {A : Type 0} → Reply A × Db → ρ → Reply A × Db × ρ
  beside (r, db) s = (r, db, s)

  unfoldable pub on_db : {A : Type 0} → M A → Exec ρ A
  on_db m (db, s) = beside (m db) s

  abbrev pub kept : {A : Type 0} → Db → A × ρ → Reply A × Db × ρ
  kept db (a, s) = (done a, db, s)

  unfoldable pub on_redis : {A : Type 0} → (ρ → A × ρ) → Exec ρ A
  on_redis f (db, s) = kept db (f s)

  -- The answer of the database and Redis are not needed.
  abbrev pub ignoring : {A : Type 0} → Exec ρ A → Exec ρ (Unit {0})
  ignoring m = m >>= λ _. nothing
