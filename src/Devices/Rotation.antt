-- ===== src/Devices/Rotation.antt =====
-- Tokens are used once: a second use of one shuts its whole family.
use phone_control.Common.{
  ℕ, ◌≡◌, ◌∙◌, refl, sym, ap, true, false, [], ◌∷◌, some, ◌==◌, ==_iff, find_first, All, arith,
}
use phone_control.Common.Finds.{find_first-append, find_first-last, All-update_where_self}
use phone_control.Common.Ids.{find_first-update_where}
use phone_control.Rules.Clock.{Text}
use phone_control.Store.{Device, DeviceCredential, Db, done, raised, Error}
use phone_control.Devices.Tokens.{
  Issuer, DeviceTokens, has_token, is_live_in, revoke_credential, revoke_family, mark_used,
  tokens_for, new_credential, refresh_amid, refresh_tokens,
}
use phone_control.Devices.Runs.{
  with_credential, IsRefreshed, refresh_amid_spent, refresh_amid_done, refresh_amid_inversion,
}

module _ (issuer : Issuer) (token fresh : Text) (now : ℕ) (db : Db) where
  abbrev nobody : Db → Db
  nobody db = db

  module _ (c : DeviceCredential) (d : Device)
      (r : IsRefreshed issuer nobody token fresh now db c d) where
    -- After the first refresh.
    abbrev rotated : Db
    rotated = with_credential issuer c.device_id c.family_id fresh now (mark_used c.id now db)

    abbrev used : DeviceCredential
    used = record c { used_at = some now }

    abbrev successor : DeviceCredential
    successor = new_credential issuer (db.ids db.issued) c.device_id c.family_id now fresh

    old_found : find_first (has_token (issuer.hash_token token)) rotated.credentials ≡ some used
    old_found =
        find_first-append (has_token (issuer.hash_token token)) (mark_used c.id now db).credentials
          (successor ∷ []) used
          (find_first-update_where (has_token (issuer.hash_token token)) (λ x. x.id == c.id)
              (λ x. record x { used_at = some now }) db.credentials c (λ x. refl) r.0.0
            ∙ rw ((==_iff c.id c.id).1 refl) refl)

    new_found :
        find_first (has_token (issuer.hash_token fresh)) rotated.credentials ≡ some successor
    new_found =
        find_first-last (has_token (issuer.hash_token fresh)) (mark_used c.id now db).credentials
          successor r.4 ((==_iff (issuer.hash_token fresh) (issuer.hash_token fresh)).1 refl)

    -- After the second use, which revokes.
    abbrev shut : ℕ → Db
    shut later = revoke_family c.family_id later rotated

    second_use :
        (fresh' : Text) (later : ℕ)
        → refresh_amid issuer nobody token fresh' later rotated
          ≡ (raised Error.unauthorized, shut later)
    second_use fresh' later =
        refresh_amid_spent issuer nobody token fresh' later rotated used d (old_found, r.0.1) refl

    third_use :
        (fresh' : Text) (later latest : ℕ)
        → (refresh_amid issuer nobody fresh fresh' latest (shut later)).0
          ≡ raised Error.unauthorized
    third_use fresh' later latest =
        let own : is_live_in c.family_id successor ≡ true =
          rw ((==_iff c.family_id c.family_id).1 refl) refl in
        let found =
          find_first-update_where (has_token (issuer.hash_token fresh)) (is_live_in c.family_id)
            (revoke_credential later) rotated.credentials successor (λ x. refl) new_found
          ∙ rw own refl in
        ap (λ x. x.0)
          (refresh_amid_spent issuer nobody fresh fresh' latest (shut later)
            (revoke_credential later successor) d (found, r.0.1) refl)

    given :
        (t : DeviceTokens)
        → (refresh_amid issuer nobody token fresh now db).0 ≡ done t
        → t.refresh_token ≡ fresh
    given t e =
        let whole : done (tokens_for issuer c.device_id d.company_id fresh) ≡ done t =
          sym (ap (λ x. x.0) (refresh_amid_done issuer nobody token fresh now db c d r)) ∙ e in
        let same : tokens_for issuer c.device_id d.company_id fresh ≡ t = cc whole in
        sym (ap (λ x. x.refresh_token) same)

  abbrev IsReuseRefused : (fresh' fresh'' : Text) (later latest : ℕ) → DeviceTokens → Type 0
  IsReuseRefused fresh' fresh'' later latest t =
      let first = refresh_tokens issuer token fresh now db in
      let second = refresh_tokens issuer token fresh' later first.1 in
      let third = refresh_tokens issuer t.refresh_token fresh'' latest second.1 in
      (second.0 ≡ raised Error.unauthorized)
      × (third.0 ≡ raised Error.unauthorized)
      × ((c : DeviceCredential) × (find_first (has_token (issuer.hash_token token)) db.credentials
            ≡ some c)
          × All (λ x. is_live_in c.family_id x ≡ false) second.1.credentials)

  reuse :
      (fresh' fresh'' : Text) (later latest : ℕ) (t : DeviceTokens) (c : DeviceCredential)
      (d : Device)
      → IsRefreshed issuer nobody token fresh now db c d
      → (refresh_amid issuer nobody token fresh now db).0 ≡ done t
      → IsReuseRefused fresh' fresh'' later latest t
  unfolding refresh_tokens
  reuse fresh' fresh'' later latest t c d r e =
      rw
        (
          given c d r t e,
          refresh_amid_done issuer nobody token fresh now db c d r,
          second_use c d r fresh' later,
        )
        (
          refl,
          third_use c d r fresh'' later latest,
          (
            c,
            r.0.0,
            All-update_where_self (is_live_in c.family_id) (revoke_credential later)
                (λ x. ground arith) (rotated c d r).credentials,
          ),
        )

  -- After a refresh, a second use of the same token is refused, and leaves no credential of its
  -- family live; the token that the first use had given is then refused too.
  pub refresh_tokens_reuse :
      (fresh' fresh'' : Text) (later latest : ℕ) (t : DeviceTokens)
      → (refresh_tokens issuer token fresh now db).0 ≡ done t
      → let first = refresh_tokens issuer token fresh now db in
        let second = refresh_tokens issuer token fresh' later first.1 in
        let third = refresh_tokens issuer t.refresh_token fresh'' latest second.1 in
        (second.0 ≡ raised Error.unauthorized)
        × (third.0 ≡ raised Error.unauthorized)
        × ((c : DeviceCredential) × (find_first (has_token (issuer.hash_token token)) db.credentials
              ≡ some c)
            × All (λ x. is_live_in c.family_id x ≡ false) second.1.credentials)
  unfolding refresh_tokens
  refresh_tokens_reuse fresh' fresh'' later latest t e =
      let (c, d, r) = refresh_amid_inversion issuer nobody token fresh now db t e in
      reuse fresh' fresh'' later latest t c d r e
