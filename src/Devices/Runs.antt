-- ===== src/Devices/Runs.antt =====
-- What a refresh comes to, as equations.
use phone_control.Common.{
  ℕ, suc, ◌≡◌, refl, inl, inr, Bool, true, false, [], ◌∷◌, ◌++◌, some, ◌==◌, ltb, find_first, any,
  Bool-cases, Option-cases,
}
use phone_control.Rules.Clock.{Text}
use phone_control.Store.{Device, DeviceCredential, Db, Reply, done, raised, Error}
use phone_control.Devices.Tokens.{
  Issuer, DeviceTokens, has_token, is_spent, is_unusable, create_credential, mark_used,
  revoke_family, new_credential, tokens_for, issue, refresh_stored, refresh_amid,
}

module _ (issuer : Issuer) where
  -- The database after a credential of a family was created.
  abbrev pub with_credential : (device family : ℕ) → Text → ℕ → Db → Db
  with_credential device family fresh now db = record db {
    issued = suc db.issued;
    credentials =
        db.credentials ++ new_credential issuer (db.ids db.issued) device family now fresh ∷ [];
  }

  abbrev pub is_taken : Text → Db → Bool
  is_taken fresh db = any (has_token (issuer.hash_token fresh)) db.credentials

  pub issue_free :
      (device company family : ℕ) (fresh : Text) (now : ℕ) (db : Db)
      → is_taken fresh db ≡ false
      → issue issuer device company (some family) fresh now db ≡ (
        done (tokens_for issuer device company fresh),
        with_credential device family fresh now db,
      )
  unfolding issue
  issue_free device company family fresh now db free = rw (issue, create_credential, free) refl

  issue_taken :
      (device company family : ℕ) (fresh : Text) (now : ℕ) (db : Db)
      → is_taken fresh db ≡ true
      → (issue issuer device company (some family) fresh now db).0 ≡ raised Error.unique_violation
  unfolding issue
  issue_taken device company family fresh now db taken = rw (issue, create_credential, taken) refl

  module _ (between : Db → Db) (token fresh : Text) (now : ℕ) (db : Db) where
    abbrev pub refreshed : Reply DeviceTokens × Db
    refreshed = refresh_amid issuer between token fresh now db

    -- The credential of the token, and its phone.
    abbrev pub Presents : DeviceCredential → Device → Type 0
    Presents c d =
        (find_first (has_token (issuer.hash_token token)) db.credentials ≡ some c)
        × (find_first (λ d. d.id == c.device_id) db.devices ≡ some d)

    pub refresh_amid-refresh_stored :
        (c : DeviceCredential) (d : Device)
        → Presents c d
        → refreshed ≡ refresh_stored issuer between c d fresh now db
    unfolding refresh_amid
    refresh_amid-refresh_stored c d (found, phone) = rw (found, refresh_amid) (rw phone refl)

    pub refresh_amid_spent :
        (c : DeviceCredential) (d : Device)
        → Presents c d
        → is_spent c ≡ true
        → refreshed ≡ (raised Error.unauthorized, revoke_family c.family_id now db)
    refresh_amid_spent c d h spent = rw (refresh_amid-refresh_stored c d h, spent) refl

    abbrev pub marked : DeviceCredential → Db
    marked c = mark_used c.id now (between db)

    abbrev pub IsRefreshed : DeviceCredential → Device → Type 0
    IsRefreshed c d =
        Presents c d
        × (is_spent c ≡ false)
        × (ltb c.expires_at now ≡ false)
        × (is_unusable d ≡ false)
        × (is_taken fresh (marked c) ≡ false)

    pub refresh_amid_done :
        (c : DeviceCredential) (d : Device)
        → IsRefreshed c d
        → refreshed ≡ (
          done (tokens_for issuer c.device_id d.company_id fresh),
          with_credential c.device_id c.family_id fresh now (marked c),
        )
    refresh_amid_done c d (h, unspent, valid, usable, free) =
        rw
          (
            refresh_amid-refresh_stored c d h,
            unspent,
            valid,
            usable,
            issue_free c.device_id d.company_id c.family_id fresh now (marked c) free,
          )
          refl

    stored_inversion :
        (c : DeviceCredential) (d : Device) (t : DeviceTokens)
        → Presents c d
        → (refresh_stored issuer between c d fresh now db).0 ≡ done t
        → IsRefreshed c d
    stored_inversion c d t h e = elim (Bool-cases (is_spent c)) [
      | inl spent ↦ absurd (cc (rw spent at e))
      | inr unspent ↦ elim (Bool-cases (ltb c.expires_at now)) [
        | inl late ↦ absurd (cc (rw (unspent, late) at e))
        | inr valid ↦ elim (Bool-cases (is_unusable d)) [
          | inl gone ↦ absurd (cc (rw (unspent, valid, gone) at e))
          | inr usable ↦ elim (Bool-cases (is_taken fresh (marked c))) [
            | inr free ↦ (h, unspent, valid, usable, free)
            | inl taken ↦
                let fails =
                  issue_taken c.device_id d.company_id c.family_id fresh now (marked c) taken in
                absurd (cc (fails, rw (unspent, valid, usable) at e))
          ]
        ]
      ]
    ]

    pub refresh_amid_inversion :
        (t : DeviceTokens)
        → refreshed.0 ≡ done t
        → (c : DeviceCredential) × (d : Device) × IsRefreshed c d
    unfolding refresh_amid
    refresh_amid_inversion t e =
        elim (Option-cases (find_first (has_token (issuer.hash_token token)) db.credentials)) [
          | inl unknown ↦ absurd (cc (rw (refresh_amid, unknown) at e))
          | inr (c, found) ↦
              elim (Option-cases (find_first (λ d. d.id == c.device_id) db.devices)) [
                | inl lost ↦ let r = rw (refresh_amid, found) at e in absurd (cc (rw lost at r))
                | inr (d, phone) ↦
                    let h : Presents c d = (found, phone) in
                    (c, d, stored_inversion c d t h (rw (refresh_amid-refresh_stored c d h) at e))
              ]
        ]
