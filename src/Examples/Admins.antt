-- ===== src/Examples/Admins.antt =====
-- An administrator who types the password wrong.
use phone_control.Common.{ℕ, ◌+◌, ◌≡◌, refl, Bool, false, [], ◌∷◌, none, some, ◌==◌, arith, length}
use phone_control.Store.Enums.{AdminStatus}
use phone_control.Rules.Clock.{Text}
use phone_control.AdminAuth.{Account, Directory, temporarily_locked, login}
use phone_control.AdminAuth.Lockout.{try_all, login_after_failures}

abbrev owner : Account
owner = record {
  id = 4;
  company_id = some 1;
  email = 40;
  password_hash = 2;
  status = AdminStatus.active;
  deleted_at = none;
  sso_only = false;
  failed_attempts = 3;
  locked_until = none;
  last_login_at = none;
}

abbrev directory : Directory
directory = record {
  ids = λ n. n + 500;
  issued = 0;
  accounts = owner ∷ [];
  admin_tokens = [];
  events = [];
}

-- The hash of a password is its length.
abbrev same_length : ℕ → Text → Bool
same_length hash password = length password == hash

abbrev guess : Text
guess = b'a' ∷ []

login_after_failures_example :
    (login same_length length 7 40
      (b'a' ∷ b'b' ∷ [])
      (b't' ∷ [])
      1000
      (try_all same_length length 7 40 900 (guess ∷ guess ∷ []) directory)).0
    ≡ temporarily_locked
login_after_failures_example =
    login_after_failures same_length length 7 40 900 1000 (guess ∷ guess ∷ []) (b'a' ∷ b'b' ∷ [])
      (b't' ∷ []) owner directory refl refl refl refl (omega arith) (refl, (refl, tt)) (omega arith)
