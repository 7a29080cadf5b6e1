-- ===== src/Devices/Tokens.antt =====
-- apps/api/src/auth/device-token.service.ts and apps/api/src/crypto/token.service.ts: the tokens of a
-- phone. The hash, the signature and the bytes that are drawn are parameters.
use phone_control.Common.{
  ℕ, ◌+◌, ◌-◌, ◌*◌, Bool, not, ◌&&◌, ◌||◌, [], ◌∷◌, ◌++◌, Option, none, some, ◌==◌, ltb, get_or,
  is_some, if◌then◌else◌, find_first, update_where, any,
}
use phone_control.Common.Texts.{same_text}
use phone_control.Rules.Clock.{Text, is_digit}
use phone_control.Store.Enums.{is_enrolled}
use phone_control.Store.{
  Device, DeviceCredential, Db, M, Error, ◌>>=◌, ◌>>◌, pure, throw, read, modify, new_id,
}

-- `\d+` at the start: the number, and what follows.
abbrev pub read_digits : (value : ℕ) → Text → ℕ × Text
read_digits value [] = (value, [])
read_digits value (c ∷ cs) =
    if is_digit c then read_digits (value * 10 + (c - b'0')) cs else (value, c ∷ cs)

abbrev pub read_number : Text → Option (ℕ × Text)
read_number [] = none
read_number (c ∷ cs) = if is_digit c then some (read_digits 0 (c ∷ cs)) else none

unfoldable pub parse_days : Text → ℕ
parse_days ttl = elim (read_number ttl) [
  | none ↦ 30
  | some (value, rest) ↦ if same_text rest (b'd' ∷ []) then value else 30
]

abbrev pub factor_of : Text → Option ℕ
factor_of unit =
    if same_text unit (b's' ∷ [])
    then some 1
    else if same_text unit (b'm' ∷ [])
    then some 60
    else if same_text unit (b'h' ∷ [])
    then some 3600
    else if same_text unit (b'd' ∷ [])
    then some 86400
    else none

unfoldable pub parse_seconds : Text → ℕ
parse_seconds ttl = elim (read_number ttl) [
  | none ↦ 3600
  | some (value, rest) ↦ elim (factor_of rest) [ none ↦ 3600 | some factor ↦ value * factor ]
]

pub record DeviceTokens : Type 0 where
  pub access_token : Text
  pub refresh_token : Text
  pub expires_in : ℕ

-- The configuration and the libraries: `hash_token`, and the signed JWT of a phone.
pub record Issuer : Type 0 where
  pub hash_token : Text → ℕ
  pub sign : (sub company_id seconds : ℕ) → Text
  pub access_ttl : Option Text
  pub refresh_ttl : Option Text

-- '60m' and '30d'
abbrev pub default_access_ttl : Text
default_access_ttl = b'6' ∷ b'0' ∷ b'm' ∷ []

abbrev pub default_refresh_ttl : Text
default_refresh_ttl = b'3' ∷ b'0' ∷ b'd' ∷ []

abbrev pub access_seconds : Issuer → ℕ
access_seconds issuer = parse_seconds (get_or issuer.access_ttl default_access_ttl)

abbrev pub refresh_days : Issuer → ℕ
refresh_days issuer = parse_days (get_or issuer.refresh_ttl default_refresh_ttl)

abbrev pub has_token : ℕ → DeviceCredential → Bool
has_token hash c = c.refresh_token_hash == hash

-- `deviceCredential.create` under the unique index on the hash.
unfoldable pub create_credential : DeviceCredential → M (Unit {0})
create_credential c = do
  conflict ← read (λ db. any (has_token c.refresh_token_hash) db.credentials)
  if conflict
      then throw Error.unique_violation
      else modify (λ db. record db { credentials = db.credentials ++ c ∷ [] })

abbrev pub family_or_new : Option ℕ → M ℕ
family_or_new none = new_id
family_or_new (some family) = pure family

abbrev pub is_spent : DeviceCredential → Bool
is_spent c = is_some c.used_at || is_some c.revoked_at

abbrev pub is_live_in : (family : ℕ) → DeviceCredential → Bool
is_live_in family c = c.family_id == family && not (is_some c.revoked_at)

abbrev pub revoke_credential : ℕ → DeviceCredential → DeviceCredential
revoke_credential now c = record c { revoked_at = some now }

abbrev pub revoke_family : (family now : ℕ) → Db → Db
revoke_family family now db = record db {
  credentials = update_where (is_live_in family) (revoke_credential now) db.credentials;
}

abbrev pub mark_used : (id now : ℕ) → Db → Db
mark_used id now db = record db {
  credentials =
      update_where (λ c. c.id == id) (λ c. record c { used_at = some now }) db.credentials;
}

abbrev pub is_unusable : Device → Bool
is_unusable d = is_some d.deleted_at || not (is_enrolled d.enrollment_status)

abbrev pub is_live_of : (device : ℕ) → DeviceCredential → Bool
is_live_of device c = c.device_id == device && not (is_some c.revoked_at)

abbrev pub revoke_credentials_of : (device now : ℕ) → Db → Db
revoke_credentials_of device now db = record db {
  credentials = update_where (is_live_of device) (revoke_credential now) db.credentials;
}

unfoldable pub revoke_all : (device now : ℕ) → M (Unit {0})
revoke_all device now = modify (revoke_credentials_of device now)

module _ (issuer : Issuer) where
  abbrev pub new_credential : (id device family now : ℕ) → Text → DeviceCredential
  new_credential id device family now fresh = record {
    id = id;
    device_id = device;
    refresh_token_hash = issuer.hash_token fresh;
    family_id = family;
    expires_at = now + refresh_days issuer * 86400000;
    used_at = none;
    revoked_at = none;
  }

  abbrev pub tokens_for : (device company : ℕ) → Text → DeviceTokens
  tokens_for device company fresh = record {
    access_token = issuer.sign device company (access_seconds issuer);
    refresh_token = fresh;
    expires_in = access_seconds issuer;
  }

  -- `fresh` is the opaque token that is drawn.
  unfoldable pub issue :
      (device company : ℕ) (family : Option ℕ) (fresh : Text) (now : ℕ) → M DeviceTokens
  unfolding create_credential
  issue device company family fresh now = do
    id ← new_id
    family_id ← family_or_new family
    create_credential (new_credential id device family_id now fresh)
    pure (tokens_for device company fresh)

  -- `between`: what other requests write between the search for the token and its update.
  abbrev pub rotate :
      (between : Db → Db) → DeviceCredential → Device → (fresh : Text) (now : ℕ) → M DeviceTokens
  rotate between stored device fresh now = do
    modify between
    modify (mark_used stored.id now)
    issue stored.device_id device.company_id (some stored.family_id) fresh now

  abbrev pub refresh_stored :
      (between : Db → Db) → DeviceCredential → Device → (fresh : Text) (now : ℕ) → M DeviceTokens
  refresh_stored between stored device fresh now =
      if is_spent stored
      then (do modify (revoke_family stored.family_id now); throw Error.unauthorized)
      else if ltb stored.expires_at now
      then throw Error.unauthorized
      else if is_unusable device
      then throw Error.unauthorized
      else rotate between stored device fresh now

  -- The phone of a credential is there, by its foreign key.
  unfoldable pub refresh_amid : (between : Db → Db) (token fresh : Text) (now : ℕ) → M DeviceTokens
  unfolding issue
  refresh_amid between token fresh now = do
    stored ← read (λ db. find_first (has_token (issuer.hash_token token)) db.credentials)
    elim stored [
      | none ↦ throw Error.unauthorized
      | some c ↦ do
        device ← read (λ db. find_first (λ d. d.id == c.device_id) db.devices)
        elim device [
          | none ↦ throw Error.record_not_found
          | some d ↦ refresh_stored between c d fresh now
        ]
    ]

  unfoldable pub refresh_tokens : (token fresh : Text) (now : ℕ) → M DeviceTokens
  unfolding refresh_amid
  refresh_tokens = refresh_amid (λ db. db)
