-- ===== src/Devices/Enrollment.antt =====
-- apps/api/src/devices/enrollment.service.ts: a phone is enrolled with a token, and revoked. The
-- description of the hardware and the public key are left out; the tokens that are drawn, their
-- hash and the derivation of a key are parameters.
use phone_control.Common.{
  ℕ, zero, suc, ◌+◌, ◌*◌, ◌%◌, Bool, true, false, not, ◌&&◌, List, [], ◌∷◌, ◌++◌, Option, none,
  some, ◌==◌, ltb, get_or, is_some, if◌then◌else◌, find_first, update_where, any, length,
}
use phone_control.Common.Texts.{same_text}
use phone_control.Rules.Clock.{Text}
use phone_control.Store.Enums.{DeviceState, EnrollmentStatus, KioskMode}
use phone_control.Store.{
  Device, Depot, EnrollmentToken, Db, M, Error, ◌>>=◌, ◌>>◌, pure, throw, read, modify, new_id,
  transaction,
}
use phone_control.Settings.{DeviceSettings, ResolvedSettings, resolve_for_device}
use phone_control.Devices.Tokens.{Issuer, DeviceTokens, issue, revoke_credentials_of}

-- ABCDEFGHJKLMNPQRSTUVWXYZ23456789
abbrev pub alphabet : Text
alphabet =
    b'A' ∷ b'B' ∷ b'C' ∷ b'D' ∷ b'E' ∷ b'F' ∷ b'G' ∷ b'H' ∷ b'J' ∷ b'K' ∷ b'L' ∷ b'M' ∷ b'N' ∷ b'P'
    ∷ b'Q' ∷ b'R' ∷ b'S' ∷ b'T' ∷ b'U' ∷ b'V' ∷ b'W' ∷ b'X' ∷ b'Y' ∷ b'Z' ∷ b'2' ∷ b'3' ∷ b'4'
    ∷ b'5' ∷ b'6' ∷ b'7' ∷ b'8' ∷ b'9' ∷ []

-- `text[n]`; the callers stay within the text.
abbrev pub char_at : Text → ℕ → ℕ
char_at [] n = 0
char_at (c ∷ cs) zero = c
char_at (c ∷ cs) (suc n) = char_at cs n

abbrev pub code_from : (i : ℕ) (bytes : List ℕ) → Text
code_from i [] = []
code_from i (b ∷ bs) =
    let rest = code_from (suc i) bs in
    char_at alphabet (b % length alphabet) ∷ (if i == 7 then b'-' ∷ rest else rest)

-- `bytes` are the 16 bytes that are drawn.
unfoldable pub generate_enrollment_token : List ℕ → Text
generate_enrollment_token bytes = b'E' ∷ b'T' ∷ b'K' ∷ b'-' ∷ code_from 0 bytes

pub record TokenParams : Type 0 where
  pub company_id : ℕ
  pub depot_id : Option ℕ
  pub asset_tag : Option Text
  pub device_id : Option ℕ
  pub kiosk_mode : Option KioskMode

pub record CreatedToken : Type 0 where
  pub token : Text
  pub expires_at : ℕ
  pub id : ℕ

pub record EnrollDevice : Type 0 where
  pub enrollment_token : Text
  pub device_owner_active : Bool

pub record Enrolled : Type 0 where
  pub device_id : ℕ
  pub asset_tag : Text
  pub tokens : DeviceTokens
  pub offline_key : ℕ
  pub settings : ResolvedSettings
  pub depot : Option Depot

-- What the service is built on. `tag_of` is the label made of an instant.
pub record Enroller : Type 0 where
  pub issuer : Issuer
  pub token_ttl_days : Option ℕ
  pub derive_device_key : ℕ → ℕ
  pub tag_of : ℕ → Text
  pub device_settings : List DeviceSettings

abbrev pub has_token_hash : ℕ → EnrollmentToken → Bool
has_token_hash hash t = t.token_hash == hash

abbrev pub has_tag : (company : ℕ) → Text → Device → Bool
has_tag company tag d = d.company_id == company && same_text d.asset_tag tag

-- `companyId_assetTag` is unique.
unfoldable pub create_device : Device → M (Unit {0})
create_device d = do
  conflict ← read (λ db. any (has_tag d.company_id d.asset_tag) db.devices)
  if conflict
      then throw Error.unique_violation
      else modify (λ db. record db { devices = db.devices ++ d ∷ [] })

abbrev pub is_rival : Device → Device → Bool
is_rival d x = has_tag d.company_id d.asset_tag x && not (x.id == d.id)

unfoldable pub update_device : (old new : Device) → M (Unit {0})
update_device old new = do
  conflict ← read (λ db. any (is_rival new) db.devices)
  if conflict
      then throw Error.unique_violation
      else modify
          (λ db. record db { devices = update_where (λ d. d.id == old.id) (λ d. new) db.devices })

abbrev pub existing_device : EnrollmentToken → (tag : Text) → Db → Option Device
existing_device t tag db = elim t.device_id [
  | none ↦ find_first (has_tag t.company_id tag) db.devices
  | some id ↦ find_first (λ d. d.id == id) db.devices
]

abbrev pub common : EnrollmentToken → EnrollDevice → (now : ℕ) → Device → Device
common t dto now d = record d {
  company_id = t.company_id;
  depot_id = t.depot_id;
  device_owner_active = dto.device_owner_active;
  kiosk_mode = t.kiosk_mode;
  enrollment_status = EnrollmentStatus.enrolled;
  state = DeviceState.locked;
  enrolled_at = some now;
  last_seen_at = some now;
  revoked_at = none;
}

-- The columns of a new row that the request does not name.
abbrev pub blank_device : (id : ℕ) → Text → Device
blank_device id tag = record {
  id = id;
  company_id = 0;
  depot_id = none;
  enrollment_status = EnrollmentStatus.pending;
  state = DeviceState.unknown;
  last_seen_at = none;
  last_sync_at = none;
  last_latitude = none;
  last_longitude = none;
  last_accuracy = none;
  last_location_at = none;
  revoked_at = none;
  deleted_at = none;
  asset_tag = tag;
  device_owner_active = false;
  kiosk_mode = KioskMode.kiosk;
  enrolled_at = none;
  offline_key = none;
}

unfoldable pub save_common :
    EnrollmentToken → EnrollDevice → (tag : Text) (now : ℕ) → Option Device → M Device
unfolding create_device update_device
save_common t dto tag now none = do
  id ← new_id
  create_device (common t dto now (blank_device id tag))
  pure (common t dto now (blank_device id tag))
save_common t dto tag now (some d) = do
  update_device d (common t dto now d)
  pure (common t dto now d)

abbrev pub set_offline_key : (device key : ℕ) → Db → Db
set_offline_key device key db = record db {
  devices =
      update_where (λ d. d.id == device) (λ d. record d { offline_key = some key }) db.devices;
}

abbrev pub use_token : (id device now : ℕ) → Db → Db
use_token id device now db = record db {
  enrollment_tokens =
      update_where (λ t. t.id == id) (λ t. record t { used_at = some now; device_id = some device })
        db.enrollment_tokens;
}

abbrev pub is_visible : (company : Option ℕ) → Device → Bool
is_visible none d = true
is_visible (some company) d = d.company_id == company

abbrev pub revoked : ℕ → Device → Device
revoked now d = record d {
  enrollment_status = EnrollmentStatus.revoked;
  revoked_at = some now;
  state = DeviceState.locked;
}

abbrev pub set_revoked : (device now : ℕ) → Db → Db
set_revoked device now db = record db {
  devices = update_where (λ d. d.id == device) (revoked now) db.devices;
}

-- `company` is that of the context, none if it crosses the companies.
unfoldable pub revoke_device : (company : Option ℕ) (device now : ℕ) → M (Unit {0})
revoke_device company device now = do
  found ← read (λ db. find_first (λ d. d.id == device && is_visible company d) db.devices)
  elim found [
    | none ↦ throw Error.bad_request
    | some d ↦
        transaction do modify (set_revoked device now); modify (revoke_credentials_of device now)
  ]

module _ (enroller : Enroller) where
  abbrev pub token_row : (id : ℕ) → TokenParams → (token : Text) (expires_at : ℕ) → EnrollmentToken
  token_row id params token expires_at = record {
    id = id;
    company_id = params.company_id;
    depot_id = params.depot_id;
    device_id = params.device_id;
    token_hash = enroller.issuer.hash_token token;
    asset_tag = params.asset_tag;
    kiosk_mode = get_or params.kiosk_mode KioskMode.kiosk;
    expires_at = expires_at;
    used_at = none;
  }

  abbrev pub expiry : ℕ → ℕ
  expiry now = now + get_or enroller.token_ttl_days 7 * 86400000

  -- `enrollmentToken.create` under the unique index on the hash.
  unfoldable pub create_token : TokenParams → (bytes : List ℕ) (now : ℕ) → M CreatedToken
  unfolding generate_enrollment_token
  create_token params bytes now = do
    id ← new_id
    let token = generate_enrollment_token bytes
    conflict ←
        read (λ db. any (has_token_hash (enroller.issuer.hash_token token)) db.enrollment_tokens)
    if conflict then throw Error.unique_violation else (do
      modify (λ db. record db {
        enrollment_tokens = db.enrollment_tokens ++ token_row id params token (expiry now) ∷ [];
      })
      pure (record { token = token; expires_at = expiry now; id = id }))

  -- The transaction.
  unfoldable pub save_device : EnrollmentToken → EnrollDevice → (now : ℕ) → M Device
  unfolding save_common
  save_device t dto now = transaction do
    existing ← read (existing_device t (get_or t.asset_tag (enroller.tag_of now)))
    saved ← save_common t dto (get_or t.asset_tag (enroller.tag_of now)) now existing
    modify (set_offline_key saved.id (enroller.derive_device_key saved.id))
    modify (use_token t.id saved.id now)
    pure saved

  abbrev pub enrolled : Device → DeviceTokens → Option Depot → Enrolled
  enrolled d tokens depot = record {
    device_id = d.id;
    asset_tag = d.asset_tag;
    tokens = tokens;
    offline_key = enroller.derive_device_key d.id;
    settings = resolve_for_device enroller.device_settings d.company_id d.id d.depot_id;
    depot = depot;
  }

  unfoldable pub enroll_with :
      EnrollmentToken → Option Depot → EnrollDevice → (fresh : Text) (now : ℕ) → M Enrolled
  unfolding save_device issue
  enroll_with t depot dto fresh now = do
    device ← save_device t dto now
    tokens ← issue enroller.issuer device.id device.company_id none fresh now
    pure (enrolled device tokens depot)

  abbrev pub depot_of : Option ℕ → Db → Option Depot
  depot_of none db = none
  depot_of (some id) db = find_first (λ d. d.id == id) db.depots

  -- `fresh` is the refresh token that is drawn.
  unfoldable pub enroll : EnrollDevice → (fresh : Text) (now : ℕ) → M Enrolled
  unfolding enroll_with
  enroll dto fresh now = do
    found ← read (λ db.
        find_first (has_token_hash (enroller.issuer.hash_token dto.enrollment_token))
          db.enrollment_tokens)
    elim found [
      | none ↦ throw Error.unauthorized
      | some t ↦
          if is_some t.used_at
          then throw Error.unauthorized
          else if ltb t.expires_at now
          then throw Error.unauthorized
          else (do depot ← read (depot_of t.depot_id); enroll_with t depot dto fresh now)
    ]
