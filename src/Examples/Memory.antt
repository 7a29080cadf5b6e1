-- ===== src/Examples/Memory.antt =====
-- A client of the database in memory, with two companies.
use phone_control.Common.{◌≡◌, inr, refl, true, List, [], ◌∷◌, none, keep, All, ◌==◌}
use phone_control.Common.Ids.{Within, Within-keep, Within-keep_self, All-of_Within, All-Within}
use phone_control.Common.Sort.{All-keep}
use phone_control.Store.{done}
use phone_control.Tenant.{Operation, Row, Args, Query}
use phone_control.Tenant.Documented.{matches, written, Documented}

-- A client in memory.
abbrev pub first_of : List Row → List Row
first_of [] = []
first_of (r ∷ rs) = r ∷ []

abbrev pub answer : Operation → List Row → List Row
answer Operation.find_first found = first_of found
answer _ found = found

abbrev pub memory : Query
memory m op a rows = (done (answer op (keep (matches m a.filter) rows)), written op m a rows)

All-answer :
    (P : Row → Type 0) (op : Operation) (rows : List Row) → All P rows → All P (answer op rows)
All-answer P Operation.find_first [] h = tt
All-answer P Operation.find_first (r ∷ rows) h = (h.0, tt)
All-answer P _ rows h = h

first_of_some : (rows : List Row) (r : Row) → Within r rows → (f : Row) × (first_of rows ≡ f ∷ [])
first_of_some [] r w = absurd w
first_of_some (x ∷ rows) r w = (x, refl)

pub memory-Documented : Documented memory
memory-Documented = record {
  answers = λ m op a rows found k e.
      let here : answer op (keep (matches m a.filter) rows) ≡ found = cc e in
      rw (← here) (
        All-answer (λ r. Within r rows × (matches m a.filter r ≡ true)) op
          (keep (matches m a.filter) rows)
          (All-of_Within _ (keep (matches m a.filter) rows) (λ r w. (
            Within-keep (matches m a.filter) rows r w,
            All-Within _ (keep (matches m a.filter) rows) r (All-keep (matches m a.filter) rows) w,
          ))));
  finds = λ m a rows r w h.
      let first =
        first_of_some (keep (matches m a.filter) rows) r
          (Within-keep_self (matches m a.filter) rows r w h) in
      (first.0, rw first.1 refl);
  writes = λ m op a rows. inr refl;
}

-- Two companies with a phone each, and a filter by the identifier of the first.
abbrev pub rows : List Row
rows =
    record { id = 1; company_id = 10; content = 0 }
    ∷ record { id = 2; company_id = 20; content = 0 }
    ∷ []

abbrev pub wiped : Row → Row
wiped r = record r { content = 9 }

abbrev pub by_id : Args
by_id = record {
  filter = record { tenant = none; rest = λ r. r.id == 1 };
  new_rows = [];
  change = wiped;
}
