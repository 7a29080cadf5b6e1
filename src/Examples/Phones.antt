-- ===== src/Examples/Phones.antt =====
-- Phones that are enrolled, that refresh their tokens and that are revoked.
use phone_control.Common.{
  ℕ, ◌≡◌, ◌≢◌, refl, true, false, [], ◌∷◌, none, some, length, find_first, All,
}
use phone_control.Rules.Clock.{Text}
use phone_control.Store.Enums.{KioskMode}
use phone_control.Store.{DeviceCredential, EnrollmentToken, Session, Db, raised, done, Error}
use phone_control.Devices.Tokens.{
  Issuer, DeviceTokens, has_token, is_live_in, refresh_amid, refresh_tokens, tokens_for,
}
use phone_control.Devices.Rotation.{refresh_tokens_reuse}
use phone_control.Devices.Together.{other_request, refresh_amid_twice}
use phone_control.Devices.Enrollment.{EnrollDevice, Enroller, enroll, revoke_device}
use phone_control.Devices.SingleUse.{enroll_once}
use phone_control.Devices.Revocation.{revoke_device_shuts, revoke_device_expels}
use phone_control.Login.{granted}
use phone_control.Login.Steps.{authenticate}
use phone_control.Access.{
  Setting, TokenType, device_route, can_activate, authenticate_device, extract_bearer,
}
use phone_control.Examples.{db, phone}
use phone_control.Examples.Logins.{site, scan}
use phone_control.Examples.Guards.{setting, route, call, header}

-- The hash of a text is its length.
abbrev issuer : Issuer
issuer = record {
  hash_token = λ text. length text;
  sign = λ sub company seconds. b'j' ∷ [];
  access_ttl = none;
  refresh_ttl = none;
}

abbrev token : Text
token = b't' ∷ []

abbrev fresh : Text
fresh = b'f' ∷ b'f' ∷ []

abbrev other : Text
other = b'o' ∷ b'o' ∷ b'o' ∷ []

abbrev credential : DeviceCredential
credential = record {
  id = 50;
  device_id = 7;
  refresh_token_hash = 1;
  family_id = 60;
  expires_at = 1000;
  used_at = none;
  revoked_at = none;
}

abbrev invitation : EnrollmentToken
invitation = record {
  id = 80;
  company_id = 1;
  depot_id = none;
  device_id = some 7;
  token_hash = 1;
  asset_tag = some (b'T' ∷ b'1' ∷ []);
  kiosk_mode = KioskMode.kiosk;
  expires_at = 1000;
  used_at = none;
}

abbrev equipped : Db
equipped = record db { credentials = credential ∷ []; enrollment_tokens = invitation ∷ [] }

abbrev answer : Text → DeviceTokens
answer = tokens_for issuer 7 1

refresh_tokens_reuse_example :
    let first = refresh_tokens issuer token fresh 10 equipped in
    let second = refresh_tokens issuer token other 20 first.1 in
    let third = refresh_tokens issuer fresh other 30 second.1 in
    (second.0 ≡ raised Error.unauthorized)
    × (third.0 ≡ raised Error.unauthorized)
    × ((c : DeviceCredential) × (find_first (has_token 1) equipped.credentials ≡ some c)
        × All (λ x. is_live_in c.family_id x ≡ false) second.1.credentials)
unfolding refresh_tokens
refresh_tokens_reuse_example =
    refresh_tokens_reuse issuer token fresh 10 equipped other other 20 30 (answer fresh) refl

refresh_amid_twice_example :
    (refresh_amid issuer
      (other_request issuer token fresh other 10 11 equipped)
      token
      fresh
      10
      equipped).0
    ≡ done (answer fresh)
unfolding refresh_tokens
refresh_amid_twice_example =
    refresh_amid_twice issuer token fresh other 10 11 equipped (answer other) (answer fresh) refl
      refl (λ e. cc e)

abbrev enroller : Enroller
enroller = record {
  issuer = issuer;
  token_ttl_days = none;
  derive_device_key = λ id. id;
  tag_of = λ now. [];
  device_settings = [];
}

abbrev request : EnrollDevice
request = record { enrollment_token = token; device_owner_active = true }

enroll_once_example :
    let after = (enroll enroller request fresh 10 equipped).1 in
    enroll enroller request other 20 after ≡ (raised Error.unauthorized, after)
unfolding enroll
enroll_once_example = enroll_once enroller request request fresh other 10 20 equipped _ refl refl

revoke_device_shuts_example :
    let after = (revoke_device (some 1) 7 10 equipped).1 in
    ((user : ℕ) (session : Session)
      → (authenticate site 20 scan 7 (after, (0, none))).0 ≢ done (granted user session))
    × ((t : DeviceTokens) → (refresh_tokens issuer token fresh 20 after).0 ≢ done t)
unfolding revoke_device
revoke_device_shuts_example =
    revoke_device_shuts (some 1) 7 10 equipped site scan (0, none) issuer token fresh 20 credential
      refl refl refl

-- A second phone, which calls after the first was revoked.
abbrev pair : Db
pair = record db { devices = phone ∷ record phone { id = 8 } ∷ [] }

abbrev reading : Setting
reading = record setting {
  verify_device = λ text. some (record { sub = 8; typ = TokenType.device });
  devices = (revoke_device (some 1) 7 10 pair).1.devices;
}

revoke_device_expels_example : ◌≢◌ {A = ℕ} 8 7
unfolding can_activate authenticate_device extract_bearer revoke_device
revoke_device_expels_example =
    revoke_device_expels (some 1) 7 10 pair reading (route device_route) (call header)
      (can_activate reading (route device_route) (call header)).1
      (record { id = 8; company_id = 1; depot_id = none }) refl refl refl refl refl
