-- ===== src/AdminAuth.antt =====
-- apps/api/src/auth/admin-auth.service.ts: administrators who open a session with a password. Argon2
-- and the hash of a token are parameters, an access token is left out.
pub mod Lockout
use phone_control.Common.{
  ℕ, ◌+◌, ◌*◌, Bool, true, false, not, ◌&&◌, ◌||◌, List, [], ◌∷◌, ◌++◌, Option, none, some, ◌==◌,
  ltb, leb, is_some, if◌then◌else◌, find_first, update_where,
}
use phone_control.Store.Enums.{AdminStatus, is_active_admin}
use phone_control.Rules.Clock.{Text}

-- A row of `admins`, as far as the login reads it; an address is a number.
pub record Account : Type 0 where
  pub id : ℕ
  pub company_id : Option ℕ
  pub email : ℕ
  pub password_hash : ℕ
  pub status : AdminStatus
  pub deleted_at : Option ℕ
  pub sso_only : Bool
  pub failed_attempts : ℕ
  pub locked_until : Option ℕ
  pub last_login_at : Option ℕ

pub record AdminRefreshToken : Type 0 where
  pub id : ℕ
  pub admin_id : ℕ
  pub token_hash : ℕ
  pub family_id : ℕ
  pub expires_at : ℕ
  pub used_at : Option ℕ
  pub revoked_at : Option ℕ

pub data LoginEvent : Type 0 where
  account_locked : (admin_id : ℕ) → LoginEvent
  bad_password : (admin_id attempts : ℕ) (locked : Bool) → LoginEvent
  login_success : (admin_id : ℕ) → LoginEvent

-- Why a login is refused, or the pair of tokens of the administrator.
pub data LoginAnswer : Type 0 where
  invalid_credentials temporarily_locked : LoginAnswer
  logged_in : (admin_id : ℕ) (refresh_token : Text) → LoginAnswer

-- The tables that a login reads and writes, the supply of identifiers included.
pub record Directory : Type 0 where
  pub ids : ℕ → ℕ
  pub issued : ℕ
  pub accounts : List Account
  pub admin_tokens : List AdminRefreshToken
  pub events : List (ℕ × LoginEvent)

abbrev pub max_failed_attempts : ℕ
max_failed_attempts = 5

abbrev pub lockout_minutes : ℕ
lockout_minutes = 15

abbrev pub find_account : (email : ℕ) → Directory → Option Account
find_account email dir = find_first (λ a. a.email == email) dir.accounts

abbrev pub is_shut_account : Account → Bool
is_shut_account a = is_some a.deleted_at || not (is_active_admin a.status)

abbrev pub is_locked_at : (now : ℕ) → Option ℕ → Bool
is_locked_at now none = false
is_locked_at now (some t) = ltb now t

-- An event without a company is only logged.
abbrev pub record_admin_event : Option ℕ → LoginEvent → Directory → Directory
record_admin_event none event dir = dir
record_admin_event (some company) event dir = record dir {
  events = dir.events ++ (company, event) ∷ [];
  issued = dir.issued + 1;
}

abbrev pub set_failed : (attempts now : ℕ) → Account → Account
set_failed attempts now a = record a {
  failed_attempts = attempts;
  locked_until =
      if leb max_failed_attempts attempts then some (now + lockout_minutes * 60000) else none;
}

abbrev pub set_logged_in : (now : ℕ) → Account → Account
set_logged_in now a = record a {
  failed_attempts = 0;
  locked_until = none;
  last_login_at = some now;
}

abbrev pub update_account : (id : ℕ) → (Account → Account) → Directory → Directory
update_account id f dir = record dir { accounts = update_where (λ a. a.id == id) f dir.accounts }

abbrev pub fail_login : Account → (now : ℕ) → Directory → LoginAnswer × Directory
fail_login a now dir =
    let attempts = a.failed_attempts + 1 in
    (
      invalid_credentials,
      record_admin_event a.company_id
          (bad_password a.id attempts (leb max_failed_attempts attempts))
          (update_account a.id (set_failed attempts now) dir),
    )

-- `verify_password` is Argon2, `hash_token` SHA-256; `refresh_days` is JWT_REFRESH_TTL.
module _ (verify_password : (hash : ℕ) (password : Text) → Bool) (hash_token : Text → ℕ)
    (refresh_days : ℕ) where
  -- `token` is the random text of the new refresh token.
  abbrev pub store_token : (admin_id family_id : ℕ) (token : Text) (now : ℕ) → Directory → Directory
  store_token admin_id family_id token now dir = record dir {
    issued = dir.issued + 1;
    admin_tokens =
        dir.admin_tokens
        ++ record {
          id = dir.ids dir.issued;
          admin_id = admin_id;
          token_hash = hash_token token;
          family_id = family_id;
          expires_at = now + refresh_days * 86400000;
          used_at = none;
          revoked_at = none;
        }
          ∷ [];
  }

  -- The family is new.
  abbrev pub issue_first_tokens :
      (admin_id : ℕ) (token : Text) (now : ℕ) → Directory → LoginAnswer × Directory
  issue_first_tokens admin_id token now dir = (
    logged_in admin_id token,
    store_token admin_id (dir.ids dir.issued) token now (record dir { issued = dir.issued + 1 }),
  )

  abbrev pub pass_login : Account → (token : Text) (now : ℕ) → Directory → LoginAnswer × Directory
  pass_login a token now dir = issue_first_tokens a.id token now (
      record_admin_event a.company_id (login_success a.id)
        (update_account a.id (set_logged_in now) dir))

  abbrev pub login_account :
      Account → (password token : Text) (now : ℕ) → Directory → LoginAnswer × Directory
  login_account a password token now dir =
      if is_shut_account a
      then (invalid_credentials, dir)
      else if a.sso_only
      then (invalid_credentials, dir)
      else if is_locked_at now a.locked_until
      then (temporarily_locked, record_admin_event a.company_id (account_locked a.id) dir)
      else if verify_password a.password_hash password
      then pass_login a token now dir
      else fail_login a now dir

  abbrev pub login_found :
      Option Account → (password token : Text) (now : ℕ) → Directory → LoginAnswer × Directory
  login_found none password token now dir = (invalid_credentials, dir)
  login_found (some a) password token now dir = login_account a password token now dir

  unfoldable pub login :
      (email : ℕ) (password token : Text) (now : ℕ) → Directory → LoginAnswer × Directory
  login email password token now dir = login_found (find_account email dir) password token now dir
