-- ===== src/Devices/Together.antt =====
-- Two requests with the same token at once.
use phone_control.Common.{
  ℕ, ◌≡◌, ◌≢◌, ◌∙◌, refl, sym, ap, inl, inr, false, [], ◌∷◌, ◌==◌, ==_iff, ◌++◌, some, Bool-cases,
}
use phone_control.Common.Finds.{any-update_where, any-append}
use mathlib.Core.Path.{subst}
use phone_control.Rules.Clock.{Text}
use phone_control.Store.{Device, DeviceCredential, Db, done}
use phone_control.Devices.Tokens.{
  Issuer, DeviceTokens, has_token, mark_used, new_credential, refresh_amid, refresh_tokens,
}
use phone_control.Devices.Runs.{
  with_credential, is_taken, IsRefreshed, refresh_amid_done, refresh_amid_inversion,
}

module _ (issuer : Issuer) (token fresh fresh' : Text) (now now' : ℕ) (db : Db) where
  -- The other request, served in between.
  abbrev nobody : Db → Db
  nobody d = d

  abbrev pub other_request : Db → Db
  other_request d = (refresh_tokens issuer token fresh' now' d).1

  still_free :
      (c : DeviceCredential)
      → is_taken issuer fresh db ≡ false
      → issuer.hash_token fresh ≢ issuer.hash_token fresh'
      → is_taken issuer fresh (
          mark_used c.id now
            (with_credential issuer c.device_id c.family_id fresh' now' (mark_used c.id now' db)))
        ≡ false
  still_free c free distinct =
      let hash = issuer.hash_token fresh in
      let other : (issuer.hash_token fresh' == hash) ≡ false =
        elim (Bool-cases (issuer.hash_token fresh' == hash)) [
          | inl e ↦ absurd (distinct (sym ((==_iff (issuer.hash_token fresh') hash).0 e)))
          | inr e ↦ e
        ] in
      let marked = mark_used c.id now' db in
      let new = new_credential issuer (db.ids db.issued) c.device_id c.family_id now' fresh' in
      any-update_where (has_token hash) (λ x. x.id == c.id) (λ x. record x { used_at = some now })
        (λ x. refl) (marked.credentials ++ new ∷ [])
      ∙ any-append (has_token hash) marked.credentials (new ∷ [])
      ∙ rw
          (
            any-update_where (has_token hash) (λ x. x.id == c.id)
                (λ x. record x { used_at = some now' }) (λ x. refl) db.credentials,
            free,
            other,
          )
          refl

  both :
      (c : DeviceCredential) (d : Device)
      → IsRefreshed issuer nobody token fresh' now' db c d
      → IsRefreshed issuer nobody token fresh now db c d
      → issuer.hash_token fresh ≢ issuer.hash_token fresh'
      → (refresh_amid issuer other_request token fresh now db).0
        ≡ (refresh_amid issuer nobody token fresh now db).0
  unfolding refresh_tokens
  both c d r (h, unspent, valid, usable, free) distinct =
      let unused : is_taken issuer fresh db ≡ false =
        sym (
          any-update_where (has_token (issuer.hash_token fresh)) (λ x. x.id == c.id)
            (λ x. record x { used_at = some now }) (λ x. refl) db.credentials)
        ∙ free in
      let served = ap (λ x. x.1) (refresh_amid_done issuer nobody token fresh' now' db c d r) in
      let late : is_taken issuer fresh (mark_used c.id now (other_request db)) ≡ false =
        rw served (still_free c unused distinct) in
      ap (λ x. x.0)
        (refresh_amid_done issuer other_request token fresh now db c d
          (h, unspent, valid, usable, late))
      ∙ sym (
          ap (λ x. x.0)
            (refresh_amid_done issuer nobody token fresh now db c d
              (h, unspent, valid, usable, free)))

  -- Two requests present the same token and the second is served between the search and the update
  -- of the first: both are given tokens, the use of a token twice is not noticed.
  pub refresh_amid_twice :
      (t u : DeviceTokens)
      → (refresh_tokens issuer token fresh' now' db).0 ≡ done t
      → (refresh_tokens issuer token fresh now db).0 ≡ done u
      → issuer.hash_token fresh ≢ issuer.hash_token fresh'
      → (refresh_amid issuer other_request token fresh now db).0 ≡ done u
  unfolding refresh_tokens
  refresh_amid_twice t u e e' distinct =
      let (c, d, r) = refresh_amid_inversion issuer nobody token fresh' now' db t e in
      let (b, f, q) = refresh_amid_inversion issuer nobody token fresh now db u e' in
      let same : b ≡ c = cc (q.0.0, r.0.0) in
      let moved = subst (λ x. IsRefreshed issuer nobody token fresh now db x f) same q in
      let phone : f ≡ d = cc (moved.0.1, r.0.1) in
      both c d r (subst (λ x. IsRefreshed issuer nobody token fresh now db c x) phone moved)
        distinct
      ∙ e'
