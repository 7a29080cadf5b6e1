-- ===== src/Alerts/Effects.antt =====
-- A call of `raise` writes alerts, and answers.
use phone_control.Common.{◌≡◌, refl, inl, inr, Option-cases}
use phone_control.Store.{Db, Alert, done}
use phone_control.Alerts.{
  RaiseAlertInput, find_open, new_alert, created, create_or_existing, raise_amid, raise,
}

-- What an alert does not write.
abbrev pub Spares : Db → Db → Type 0
Spares db db' =
    (db'.commands ≡ db.commands)
    × (db'.sessions ≡ db.sessions)
    × (db'.devices ≡ db.devices)
    × (db'.depots ≡ db.depots)

pub raise-Spares :
    (input : RaiseAlertInput) (db : Db)
    → ((a : Alert) × ((raise input db).0 ≡ done a)) × Spares db (raise input db).1
unfolding raise raise_amid create_or_existing created
raise-Spares input db =
    elim (Option-cases (find_open input.company_id input.dedupe_key db.alerts)) [
      | inl missing ↦
          rw (missing, raise, raise_amid)
            (rw (missing, create_or_existing, created)
              ((new_alert input (db.ids db.issued), refl), (refl, refl, refl, refl)))
      | inr (a, found) ↦ rw (found, raise, raise_amid) ((a, refl), (refl, refl, refl, refl))
    ]
