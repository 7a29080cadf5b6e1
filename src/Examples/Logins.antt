-- ===== src/Examples/Logins.antt =====
-- Drivers with badges.
use phone_control.Common.{
  ℕ, suc, ◌≡◌, ◌⊎◌, inl, refl, Option, true, [], ◌∷◌, none, some, arith, length,
}
use phone_control.Store.Enums.{BadgeStatus, UserStatus}
use phone_control.Store.{Session, Badge, User, Db, done}
use phone_control.Rules.Clock.{Text}
use phone_control.Sessions.Ends.{IsExclusive}
use phone_control.Limiter.{Redis, consume, is_locked_out, record_failure}
use phone_control.Common.Texts.{is_space}
use phone_control.BadgeHash.{described, describe}
use phone_control.BadgeHash.Normal.{IsSeparator}
use phone_control.Login.{BarcodeAuth, Site, rate_limited, denied, positive, granted}
use phone_control.Login.Steps.{register_failure, authenticate}
use phone_control.Login.Sessions.{IsPersonal, Grants}
use phone_control.Login.Granted.{IsAllowed, IsKnown, IsCleared, authenticate-Grants}
use phone_control.Login.Badges.{IsRefused}
use phone_control.Login.Outcome.{Qualified, authenticate_outcome}
use phone_control.Login.Unique.{IsOnlySession, authenticate-IsOnlySession}
use phone_control.Login.Lockouts.{register_failure-authenticate}
use phone_control.Examples.{db, phone}

-- Beyond ASCII nothing has letters, and the hash counts the characters.
abbrev no_letters : ℕ → Text
no_letters c = []

abbrev hmac : ℕ → Text → ℕ
hmac version text = length text

-- 14557719, and with a dash in it
abbrev code : Text
code = b'1' ∷ b'4' ∷ b'5' ∷ b'5' ∷ b'7' ∷ b'7' ∷ b'1' ∷ b'9' ∷ []

no_letters-spaces : (c : ℕ) → is_space c ≡ true → IsSeparator no_letters c
no_letters-spaces c h = ground arith

-- A server that counts all increments, and remembers the last value that was set.
abbrev notebook : Redis (ℕ × Option ℕ)
notebook = record {
  increment_with_ttl = λ key seconds s. (some (suc s.0), (suc s.0, s.1));
  get = λ key s. (some s.1, s);
  set_with_ttl = λ key value seconds s. (some tt, (s.0, some value));
  del = λ key s. (some tt, (0, s.1));
  ttl = λ key s. (some 60, s);
}

abbrev blank : ℕ × Option ℕ
blank = (0, none)

abbrev pub site : Site (ℕ × Option ℕ)
site = record {
  redis = notebook;
  limits = record {
    per_device_per_minute = 10;
    per_badge_per_minute = 5;
    lockout_failures = 3;
    lockout_minutes = 15;
  };
  describe = describe no_letters hmac 1;
  device_settings = [];
  company_settings =
      λ company. record { detailed_denial_messages = none; require_device_assignment = none };
  context_company = some 1;
}

abbrev badge : Badge
badge = record {
  id = 20;
  company_id = 1;
  user_id = 3;
  barcode_hash = 8;
  status = BadgeStatus.active;
}

abbrev driver : User
driver = record { id = 3; company_id = 1; status = UserStatus.active; deleted_at = none }

abbrev staffed : Db
staffed = record db { badges = badge ∷ []; users = driver ∷ [] }

abbrev pub scan : BarcodeAuth
scan = record {
  barcode = code;
  device_id = 7;
  scanned_at = none;
  latitude = none;
  longitude = none;
}

allowed : IsAllowed site 90 scan 7 staffed blank (described no_letters hmac 1 code)
unfolding consume is_locked_out
allowed = record { unlocked = refl; device_allowed = refl; badge_allowed = refl }

known : IsKnown site 90 scan 7 staffed phone (described no_letters hmac 1 code) badge
unfolding describe
known = record {
  own = refl;
  known = refl;
  enrolled = refl;
  present = refl;
  unrevoked = refl;
  readable = refl;
  issued = refl;
}

cleared : IsCleared site 90 scan staffed phone badge driver
cleared = record {
  badge_active = refl;
  holder = refl;
  user_active = refl;
  user_present = refl;
  badge_company = refl;
  user_company = refl;
  assigned = inl refl;
}

authenticate-Grants_example :
    Grants site 90 phone badge driver staffed (authenticate site 90 scan 7 (staffed, blank))
authenticate-Grants_example =
    authenticate-Grants site 90 scan 7 staffed blank phone (described no_letters hmac 1 code) badge
      driver allowed known cleared

authenticate_outcome_example :
    let result = authenticate site 90 scan 7 (staffed, blank) in
    IsRefused site 90 scan staffed result ⊎ Qualified site 90 scan 7 staffed blank result
authenticate_outcome_example = authenticate_outcome site 90 scan 7 staffed blank

staffed-IsExclusive : IsExclusive staffed
staffed-IsExclusive device = ground arith

staffed-IsPersonal : IsPersonal staffed
staffed-IsPersonal user = ground arith

authenticate-IsOnlySession_example :
    let result = authenticate site 90 scan 7 (staffed, blank) in
    (new : Session) × (result.0 ≡ done (granted driver.id new))
    × IsOnlySession 7 badge.user_id new result.1
    × IsExclusive result.1
    × IsPersonal result.1
authenticate-IsOnlySession_example =
    authenticate-IsOnlySession site 90 scan 7 staffed blank phone (described no_letters hmac 1 code)
      badge driver allowed known cleared staffed-IsExclusive staffed-IsPersonal

-- The third failure.
register_failure-authenticate_example :
    let next = register_failure site 90 7 1 (staffed, (2, none)) in
    (authenticate site 95 scan 7 (next.1, next.2)).0
    ≡ done (denied rate_limited (positive (some 900)))
unfolding record_failure
register_failure-authenticate_example =
    register_failure-authenticate site 90 7 1 staffed (2, none) 95 scan
      (λ key value seconds t stored. refl) (omega arith) refl refl
