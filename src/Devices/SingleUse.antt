-- ===== src/Devices/SingleUse.antt =====
-- An enrolment token works once.
use phone_control.Common.{
  ℕ, suc, ◌≡◌, ◌∙◌, refl, inl, inr, true, List, Option, none, some, ◌==◌, ==_iff, find_first,
  update_where, any, is_some, ltb, Bool-cases, Option-cases, get_or,
}
use mathlib.Core.Path.{subst}
use phone_control.Common.Ids.{find_first-update_where}
use phone_control.Rules.Clock.{Text}
use phone_control.Store.{
  Device, Depot, EnrollmentToken, Db, M, Reply, done, raised, Error, continue, commit, ◌>>◌, pure,
  modify, DeviceCredential,
}
use phone_control.Devices.Tokens.{Issuer, has_token, create_credential, issue, new_credential}
use phone_control.Devices.Enrollment.{
  EnrollDevice, Enrolled, Enroller, has_token_hash, create_device, update_device, is_rival, has_tag,
  existing_device, save_common, use_token, common, blank_device, set_offline_key, save_device,
  enroll_with, enroll, depot_of,
}

-- A handler that leaves the enrolment tokens alone.
abbrev Spares : {A : Type 0} → M A → Type 0
Spares m = (db : Db) → (m db).1.enrollment_tokens ≡ db.enrollment_tokens

continue-Spares :
    {A B : Type 0} (x : Reply A × Db) (f : A → M B)
    → ((a : A) → Spares (f a))
    → (continue x f).1.enrollment_tokens ≡ x.1.enrollment_tokens
continue-Spares (done a, db) f spares = spares a db
continue-Spares (raised e, db) f spares = refl

create_device-Spares : (d : Device) → Spares (create_device d)
unfolding create_device
create_device-Spares d db = elim (Bool-cases (any (has_tag d.company_id d.asset_tag) db.devices)) [
  | inl taken ↦ rw (taken, create_device) refl
  | inr free ↦ rw (free, create_device) refl
]

update_device-Spares : (d e : Device) → Spares (update_device d e)
unfolding update_device
update_device-Spares d e db = elim (Bool-cases (any (is_rival e) db.devices)) [
  | inl taken ↦ rw (taken, update_device) refl
  | inr free ↦ rw (free, update_device) refl
]

save_common-Spares :
    (t : EnrollmentToken) (dto : EnrollDevice) (tag : Text) (now : ℕ) (o : Option Device)
    → Spares (save_common t dto tag now o)
unfolding save_common
save_common-Spares t dto tag now none db =
    let new = common t dto now (blank_device (db.ids db.issued) tag) in
    let db' = record db { issued = suc db.issued } in
    continue-Spares (create_device new db') _ (λ a d. refl) ∙ create_device-Spares new db'
save_common-Spares t dto tag now (some d) db =
    let new = common t dto now d in
    continue-Spares (update_device d new db) _ (λ a d. refl) ∙ update_device-Spares d new db

create_credential-Spares : (c : DeviceCredential) → Spares (create_credential c)
unfolding create_credential
create_credential-Spares c db =
    elim (Bool-cases (any (has_token c.refresh_token_hash) db.credentials)) [
      | inl taken ↦ rw (taken, create_credential) refl
      | inr free ↦ rw (free, create_credential) refl
    ]

issue-Spares :
    (issuer : Issuer) (device company : ℕ) (fresh : Text) (now : ℕ)
    → Spares (issue issuer device company none fresh now)
unfolding issue
issue-Spares issuer device company fresh now db =
    let id = db.ids db.issued in
    let family = db.ids (suc db.issued) in
    let c = new_credential issuer id device family now fresh in
    let db' = record db { issued = suc (suc db.issued) } in
    continue-Spares (create_credential c db') _ (λ a d. refl) ∙ create_credential-Spares c db'

module _ (enroller : Enroller) (t : EnrollmentToken) (dto : EnrollDevice) (now : ℕ) where
  abbrev used_by : ℕ → EnrollmentToken → EnrollmentToken
  used_by device t = record t { used_at = some now; device_id = some device }

  -- The token was written as used, on the tokens `ts`.
  abbrev IsUsed : List EnrollmentToken → Db → Type 0
  IsUsed ts db =
      (device : ℕ) × (db.enrollment_tokens ≡ update_where (λ x. x.id == t.id) (used_by device) ts)

  completed :
      (x : Reply Device × Db) (db : Db) (d : Device)
      → (commit db (
          continue x (λ saved. do
            modify (set_offline_key saved.id (enroller.derive_device_key saved.id))
            modify (use_token t.id saved.id now)
            pure saved))).0
        ≡ done d
      → IsUsed x.1.enrollment_tokens
          (commit db (
            continue x (λ saved. do
              modify (set_offline_key saved.id (enroller.derive_device_key saved.id))
              modify (use_token t.id saved.id now)
              pure saved))).1
  completed (done a, db') db d e = (a.id, refl)
  completed (raised f, db') db d e = absurd (cc e)

  save_device-IsUsed :
      (db : Db) (d : Device)
      → (save_device enroller t dto now db).0 ≡ done d
      → IsUsed db.enrollment_tokens (save_device enroller t dto now db).1
  unfolding save_device
  save_device-IsUsed db d e =
      let tag = get_or t.asset_tag (enroller.tag_of now) in
      let existing = existing_device t tag db in
      subst (λ ts. IsUsed ts (save_device enroller t dto now db).1)
        (save_common-Spares t dto tag now existing db)
        (completed (save_common t dto tag now existing db) db d e)

  answered :
      {B : Type 0} (x : Reply Device × Db) (f : Device → M B) (r : B)
      → (continue x f).0 ≡ done r
      → (d : Device) × (x.0 ≡ done d)
  answered (done a, db) f r e = (a, refl)
  answered (raised g, db) f r e = absurd (cc e)

  enroll_with-IsUsed :
      (depot : Option Depot) (fresh : Text) (db : Db) (r : Enrolled)
      → (enroll_with enroller t depot dto fresh now db).0 ≡ done r
      → IsUsed db.enrollment_tokens (enroll_with enroller t depot dto fresh now db).1
  unfolding enroll_with
  enroll_with-IsUsed depot fresh db r e =
      let saved = save_device enroller t dto now db in
      let (d, ok) = answered saved _ r e in
      let (device, written) = save_device-IsUsed db d ok in
      (
        device,
        continue-Spares saved _ (λ a db'.
              let tokens = issue enroller.issuer a.id a.company_id none fresh now db' in
              continue-Spares tokens _ (λ t d. refl)
              ∙ issue-Spares enroller.issuer a.id a.company_id fresh now db')
            ∙ written,
      )

module _ (enroller : Enroller) (dto : EnrollDevice) where
  abbrev hash : ℕ
  hash = enroller.issuer.hash_token dto.enrollment_token

  spent_refused :
      (fresh : Text) (now : ℕ) (db : Db) (t : EnrollmentToken)
      → find_first (has_token_hash hash) db.enrollment_tokens ≡ some t
      → is_some t.used_at ≡ true
      → enroll enroller dto fresh now db ≡ (raised Error.unauthorized, db)
  unfolding enroll
  spent_refused fresh now db t found used = rw (found, enroll) (rw used refl)

  enroll_inversion :
      (fresh : Text) (now : ℕ) (db : Db) (r : Enrolled)
      → (enroll enroller dto fresh now db).0 ≡ done r
      → (t : EnrollmentToken) × (find_first (has_token_hash hash) db.enrollment_tokens ≡ some t)
        × IsUsed enroller t dto now db.enrollment_tokens (enroll enroller dto fresh now db).1
  unfolding enroll
  enroll_inversion fresh now db r e =
      elim (Option-cases (find_first (has_token_hash hash) db.enrollment_tokens)) [
        | inl unknown ↦ absurd (cc (rw (enroll, unknown) at e))
        | inr (t, found) ↦ elim (Bool-cases (is_some t.used_at)) [
          | inl used ↦ absurd (cc (rw used at (rw (enroll, found) at e)))
          | inr unused ↦ elim (Bool-cases (ltb t.expires_at now)) [
            | inl late ↦ absurd (cc (rw (unused, late) at (rw (enroll, found) at e)))
            | inr valid ↦
                let depot = depot_of enroller t.depot_id db in
                let run : enroll enroller dto fresh now db
                    ≡ enroll_with enroller t depot dto fresh now db =
                  rw (found, enroll) (rw (unused, valid) refl) in
                (
                  t,
                  found,
                  rw run (enroll_with-IsUsed enroller t dto now depot fresh db r (rw run at e)),
                )
          ]
        ]
      ]

-- After an enrolment, the token is refused, whichever phone presents it and whenever, and that
-- changes nothing.
pub enroll_once :
    (enroller : Enroller) (dto other : EnrollDevice) (fresh fresh' : Text) (now later : ℕ) (db : Db)
    (r : Enrolled)
    → (enroll enroller dto fresh now db).0 ≡ done r
    → other.enrollment_token ≡ dto.enrollment_token
    → let after = (enroll enroller dto fresh now db).1 in
      enroll enroller other fresh' later after ≡ (raised Error.unauthorized, after)
enroll_once enroller dto other fresh fresh' now later db r e same =
    let (t, found, (device, written)) = enroll_inversion enroller dto fresh now db r e in
    let h = enroller.issuer.hash_token dto.enrollment_token in
    let again =
      find_first-update_where (has_token_hash h) (λ x. x.id == t.id)
        (used_by enroller t dto now device) db.enrollment_tokens t (λ x. refl) found
      ∙ rw ((==_iff t.id t.id).1 refl) refl in
    spent_refused enroller other fresh' later (enroll enroller dto fresh now db).1
      (used_by enroller t dto now device t) (rw (same, written) again) refl
