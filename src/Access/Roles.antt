-- ===== src/Access/Roles.antt =====
-- The conditions of the guard on an administrator and a phone, as predicates.
use phone_control.Common.{
  ℕ, ◌≡◌, ◌↔◌, ◌⊎◌, refl, inl, inr, Bool, true, false, not, ◌&&◌, List, [], ◌∷◌, Option, none, some,
  any, is_some, Bool-cases, Option-cases, ==_iff, arith,
}
use phone_control.Common.Ids.{Within}
use phone_control.Store.Enums.{
  AdminRole, AdminStatus, EnrollmentStatus, is_active_admin, is_enrolled,
}
use phone_control.Access.{Setting, Admin, role_index, same_role, lacks_role, is_homeless}

-- The administrator is in use, has a role that the route names, if it names any, and has a company
-- or needs none.
abbrev pub IsAllowedRole : Option (List AdminRole) → AdminRole → Type 0
IsAllowedRole none role = Unit
IsAllowedRole (some []) role = Unit
IsAllowedRole (some (r ∷ rs)) role = Within role (r ∷ rs)

abbrev pub IsPlaced : Admin → Type 0
IsPlaced a = (a.role ≡ AdminRole.super_admin) ⊎ ((c : ℕ) × (a.company_id ≡ some c))

pub active_status :
    (o : Option ℕ) (s : AdminStatus)
    → ((not (is_some o) && is_active_admin s) ≡ true) ↔ ((o ≡ none) × (s ≡ AdminStatus.active))
active_status none AdminStatus.active = (λ e. (refl, refl), λ h. refl)
active_status none AdminStatus.disabled = (λ e. absurd (cc e), λ h. absurd (cc h.1))
active_status (some t) s = (λ e. absurd (cc e), λ h. absurd (cc h.0))

pub enrolled_status :
    (o : Option ℕ) (s : EnrollmentStatus)
    → ((not (is_some o) && is_enrolled s) ≡ true) ↔ ((o ≡ none) × (s ≡ EnrollmentStatus.enrolled))
enrolled_status none EnrollmentStatus.enrolled = (λ e. (refl, refl), λ h. refl)
enrolled_status none EnrollmentStatus.pending = (λ e. absurd (cc e), λ h. absurd (cc h.1))
enrolled_status none EnrollmentStatus.revoked = (λ e. absurd (cc e), λ h. absurd (cc h.1))
enrolled_status none EnrollmentStatus.decommissioned = (λ e. absurd (cc e), λ h. absurd (cc h.1))
enrolled_status (some t) s = (λ e. absurd (cc e), λ h. absurd (cc h.0))

same_role_iff : (a b : AdminRole) → (same_role a b ≡ true) ↔ (a ≡ b)
same_role_iff a b = (
  λ e. role_index_injective a b ((==_iff (role_index a) (role_index b)).0 e),
  λ e. rw e ((==_iff (role_index b) (role_index b)).1 refl),
)
  where
    role_index_injective : (a b : AdminRole) → role_index a ≡ role_index b → a ≡ b
    role_index_injective a b e = ground (arith, e)

any_role_iff :
    (role : AdminRole) (rs : List AdminRole) → (any (same_role role) rs ≡ true) ↔ Within role rs
any_role_iff role [] = (λ e. absurd (cc e), λ w. absurd w)
any_role_iff role (r ∷ rs) = (
  λ e. elim (Bool-cases (same_role role r)) [
    | inl here ↦ inl ((same_role_iff role r).0 here)
    | inr other ↦ inr ((any_role_iff role rs).0 (rw other at e))
  ],
  λ w. elim w [
    | inl here ↦ rw ((same_role_iff role r).1 here) refl
    | inr later ↦ ground (arith, (any_role_iff role rs).1 later)
  ],
)

pub lacks_role_iff :
    (setting : Setting) (roles : Option (List AdminRole)) (role : AdminRole)
    → (lacks_role setting roles role ≡ false) ↔ IsAllowedRole roles role
lacks_role_iff setting none role = (λ e. tt, λ u. refl)
lacks_role_iff setting (some []) role = (λ e. tt, λ u. refl)
lacks_role_iff setting (some (r ∷ rs)) role = (
  λ e. (any_role_iff role (r ∷ rs)).0 (not_false _ e),
  λ w. rw ((any_role_iff role (r ∷ rs)).1 w) refl,
)
  where
    not_false : (b : Bool) → not b ≡ false → b ≡ true
    not_false true e = refl
    not_false false e = absurd (cc e)

pub is_homeless_iff : (setting : Setting) (a : Admin) → (is_homeless setting a ≡ false) ↔ IsPlaced a
is_homeless_iff setting a = (
  λ e. elim (Option-cases a.company_id) [
    | inr own ↦ inr own
    | inl none' ↦ inl ((same_role_iff a.role AdminRole.super_admin).0 (ground (arith, e, none')))
  ],
  λ h. elim h [
    | inl role ↦ let first : role_index a.role ≡ 0 = rw role refl in ground (arith, first)
    | inr (c, own) ↦ ground (arith, own)
  ],
)
