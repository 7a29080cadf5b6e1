-- ===== src/Login/Badges.antt =====
-- Where the checks of a badge end, for a phone that is in use.
use phone_control.Common.{
  ℕ, ◌≡◌, ◌⊎◌, inl, inr, refl, true, false, not, is_some, ◌&&◌, ◌==◌, Option, none, some, arith,
  Bool-cases, Option-cases, find_first, if◌then◌else◌,
}
use phone_control.Store.Enums.{BadgeStatus, BarcodeScanResult, is_active_badge}
use phone_control.Store.{Device, User, Badge, Db, Reply}
use phone_control.BadgeHash.{Described}
use phone_control.Login.Effects.{◌>>=◌, on_db}
use phone_control.Login.{BarcodeAuth, badge_denied, Response, Site, has_hash, is_revoked_badge}
use phone_control.Login.Steps.{
  needs_assignment, detailed, check_assignment, check_company, check_user, check_badge, find_badge,
}
use phone_control.Login.Runs.{
  is_assigned, is_same_company, is_live_user, check_assignment_run, check_company_run,
  check_user_run, check_badge_run, find_badge_run,
}
use phone_control.Login.Refusals.{
  Kept, Denies, Refuses-bind, Refuses-answer, refuse_badge-Refuses, record_scan-Keeps,
  refuse_unassigned-Refuses, refuse_unknown-Refuses,
}
use phone_control.Login.Granted.{IsCleared}
use phone_control.Login.Sessions.{Grants, succeed-Grants}

pub absent : (o : Option ℕ) → is_some o ≡ false → o ≡ none
absent o h = ground arith

module _ {ρ : Type 0} (site : Site ρ) (now : ℕ) (dto : BarcodeAuth) where
  -- Nothing is granted, and the sessions and the phones are left alone.
  abbrev pub IsRefused : Db → Reply Response × Db × ρ → Type 0
  IsRefused db result = Kept db result.1 × Denies result.0

  module _ (db : Db) (s : ρ) (device : Device) (found : Described) where
    check_assignment_outcome :
        (badge : Badge) (user : User)
        → let result = check_assignment site now device found badge user dto (db, s) in
          IsRefused db result
          ⊎ (((needs_assignment site now device ≡ false)
                ⊎ (is_assigned site now dto db s device found badge user ≡ true))
              × Grants site now device badge user db result)
    check_assignment_outcome badge user =
        let b =
          needs_assignment site now device
          && not (is_assigned site now dto db s device found badge user) in
        elim (Bool-cases b) [
          | inl e ↦
              rw (check_assignment_run site now dto db s device found badge user true e)
                (inl (refuse_unassigned-Refuses site now device found badge dto db s))
          | inr e ↦
              rw (check_assignment_run site now dto db s device found badge user false e)
                (inr (ground arith, succeed-Grants site now device found badge user dto db s))
        ]

    module _ (badge : Badge) (user : User) where
      -- The conditions on the badge's user and the companies, as far as they were not tested yet.
      abbrev Tested : Reply Response × Db × ρ → Type 0
      Tested result =
          ((needs_assignment site now device ≡ false)
            ⊎ (is_assigned site now dto db s device found badge user ≡ true))
          × Grants site now device badge user db result

      check_company_outcome :
          let result = check_company site now device found badge user dto (db, s) in
          IsRefused db result
          ⊎ ((is_same_company site now dto db s device found badge user ≡ true) × Tested result)
      unfolding check_company
      check_company_outcome =
          elim (Bool-cases (is_same_company site now dto db s device found badge user)) [
            | inl e ↦
                rw (check_company_run site now dto db s device found badge user e)
                  (elim (check_assignment_outcome badge user) [
                    | inl r ↦ inl r
                    | inr g ↦ inr (e, g)
                  ])
            | inr e ↦
                rw (e, check_company)
                  (inl (
                    Refuses-bind _ _ (record_scan-Keeps _ _ _ dto _)
                      (λ _. Refuses-answer badge_denied (detailed site now device) none) db s))
          ]

      check_user_outcome :
          let result = check_user site now device found badge user dto (db, s) in
          IsRefused db result
          ⊎ ((is_live_user site now dto db s device found badge user ≡ true)
              × (is_same_company site now dto db s device found badge user ≡ true)
              × Tested result)
      unfolding check_user
      check_user_outcome =
          elim (Bool-cases (is_live_user site now dto db s device found badge user)) [
            | inl e ↦
                rw (check_user_run site now dto db s device found badge user e)
                  (elim check_company_outcome [ inl r ↦ inl r | inr g ↦ inr (e, g.0, g.1) ])
            | inr e ↦
                rw (e, check_user)
                  (inl (refuse_badge-Refuses site now _ device found badge dto db s))
          ]

    cleared :
        (badge : Badge) (user : User)
        → find_first (λ u. u.id == badge.user_id) db.users ≡ some user
        → is_active_badge badge.status ≡ true
        → is_live_user site now dto db s device found badge user ≡ true
        → is_same_company site now dto db s device found badge user ≡ true
        → (needs_assignment site now device ≡ false)
          ⊎ (is_assigned site now dto db s device found badge user ≡ true)
        → IsCleared site now dto db device badge user
    cleared badge user held active live same assigned = record {
      badge_active = ground arith;
      holder = held;
      user_active = ground arith;
      user_present = absent user.deleted_at (ground arith);
      badge_company = ground arith;
      user_company = ground arith;
      assigned = assigned;
    }

    abbrev refusal_of : BadgeStatus → BarcodeScanResult
    refusal_of status =
        if is_revoked_badge status
        then BarcodeScanResult.badge_revoked
        else BarcodeScanResult.badge_inactive

    check_badge_outcome :
        (badge : Badge)
        → let result = check_badge site now device found badge dto (db, s) in
          IsRefused db result
          ⊎ ((user : User) × IsCleared site now dto db device badge user
              × Grants site now device badge user db result)
    unfolding check_badge ◌>>=◌ on_db
    check_badge_outcome badge =
        elim (Option-cases (find_first (λ u. u.id == badge.user_id) db.users)) [
          | inl missing ↦ rw (missing, check_badge) (inl ((refl, refl), λ user session h. cc h))
          | inr (user, held) ↦ elim (Bool-cases (is_active_badge badge.status)) [
            | inl e ↦
                rw (check_badge_run site now dto db s device found badge user held e)
                  (elim (check_user_outcome badge user) [
                    | inl r ↦ inl r
                    | inr g ↦ inr (user, cleared badge user held e g.0 g.1 g.2.0, g.2.1)
                  ])
            | inr e ↦
                rw (held, check_badge)
                  (rw e (
                    inl (
                      refuse_badge-Refuses site now (refusal_of badge.status) device found badge dto
                        db s)))
          ]
        ]

    -- With the badge that the hash stands for.
    abbrev pub Cleared : Reply Response × Db × ρ → Type 0
    Cleared result =
        (badge : Badge) × (user : User) × (find_first (has_hash device.company_id found.hash)
            db.badges
          ≡ some badge)
        × IsCleared site now dto db device badge user
        × Grants site now device badge user db result

    pub find_badge_outcome :
        let result = find_badge site now device found dto (db, s) in
        IsRefused db result ⊎ Cleared result
    unfolding find_badge ◌>>=◌ on_db
    find_badge_outcome =
        elim (Option-cases (find_first (has_hash device.company_id found.hash) db.badges)) [
          | inl missing ↦
              rw (missing, find_badge) (inl (refuse_unknown-Refuses site now device found dto db s))
          | inr (badge, issued) ↦
              rw (find_badge_run site now dto db s device found badge issued)
                (elim (check_badge_outcome badge) [
                  | inl r ↦ inl r
                  | inr (user, c, g) ↦ inr (badge, user, issued, c, g)
                ])
        ]
