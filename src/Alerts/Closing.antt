-- ===== src/Alerts/Closing.antt =====
-- Acknowledging and resolving.
use phone_control.Common.{
  ℕ, ◌≡◌, ◌≤◌, Bool, true, List, [], ◌∷◌, Option, some, arith, inl, inr, find_first, Bool-cases,
  ==_iff, refl, ap, ◌++◌, first_of_none, count_where, update_where, ◌==◌,
}
use phone_control.Common.Ids.{count_where-update_found}
use phone_control.Store.Keys.{Key}
use phone_control.Store.{Alert, Db, Message, done}
use phone_control.Alerts.{
  RaiseAlertInput, is_open_with, find_open, new_alert, is_owned, resolve, raise, resolved_by_admin,
  open_count, IsDeduped,
}
use phone_control.Alerts.Dedupe.{raise_new}

found_with {ℓ} :
    {A : Type ℓ} (p q : A → Bool) (xs : List A) (a : A)
    → find_first p xs ≡ some a
    → q a ≡ true
    → (b : A) × (find_first q xs ≡ some b)
found_with p q [] a e h = ground arith
found_with p q (x ∷ xs) a e h = elim (Bool-cases (q x)) [
  | inl here ↦ (x, rw here)
  | inr not_here ↦ rw not_here (found_with p q xs a (ground arith) h)
]

resolve_run :
    (tenant : Option ℕ) (id admin now : ℕ) (db : Db) (b : Alert)
    → find_first (is_owned tenant id) db.alerts ≡ some b
    → (resolve tenant id admin now db).1 ≡ record db {
      alerts = update_where (λ x. x.id == id) (resolved_by_admin admin now) db.alerts;
      outbox = db.outbox ++ Message.alert_updated (resolved_by_admin admin now b) ∷ [];
    }
unfolding resolve
resolve_run tenant id admin now db b e = rw (e, resolve)

closed_count :
    (admin now : ℕ) (company : ℕ) (key : Key) (alerts : List Alert) (a : Alert)
    → count_where (is_open_with company key) alerts ≤ 1
    → find_first (is_open_with company key) alerts ≡ some a
    → count_where
        (is_open_with company key)
        (update_where (λ x. x.id == a.id) (resolved_by_admin admin now) alerts)
      ≡ 0
closed_count admin now company key alerts a h found = omega (
  arith,
  count_where-update_found (is_open_with company key) (λ x. x.id == a.id)
      (resolved_by_admin admin now) alerts a (λ b. ground arith) found ((==_iff a.id a.id).1 refl),
)

-- Once the open alert of a key is resolved, none is open for the key, and the next call with the
-- key creates a new alert.
pub resolve-raise :
    (tenant : Option ℕ) (admin now : ℕ) (input : RaiseAlertInput) (key : Key) (db : Db) (a : Alert)
    → IsDeduped db
    → input.dedupe_key ≡ some key
    → find_open input.company_id (some key) db.alerts ≡ some a
    → is_owned tenant a.id a ≡ true
    → let db' = (resolve tenant a.id admin now db).1 in
      (open_count input.company_id key db'.alerts ≡ 0)
      × ((raise input db').0 ≡ done (new_alert input (db'.ids db'.issued)))
unfolding resolve
resolve-raise tenant admin now input key db a h keyed found owned =
    let p = is_open_with input.company_id key in
    let (b, visible) = found_with p (is_owned tenant a.id) db.alerts a found owned in
    let alerts =
      update_where (λ (x : Alert). x.id == a.id) (resolved_by_admin admin now) db.alerts in
    let none_left =
      closed_count admin now input.company_id key db.alerts a (h input.company_id key) found in
    rw (resolve_run tenant a.id admin now db b visible)
      (none_left, ap (λ r. r.0) (raise_new input _ (rw keyed (first_of_none p alerts none_left))))
