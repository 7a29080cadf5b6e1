-- ===== src/Store/Keys.antt =====
-- The deduplication keys of alerts and the idempotency keys of commands: one constructor for each
-- template of text in the code, with the values that the template holds.
use mathlib.Core.Bool.{decide, decide_iff}
use phone_control.Common.{ℕ, ◌≡◌, ◌↔◌, Bool, true, false, Option, none, some, ℕ_discrete, refl}
use phone_control.Store.Enums.{SecurityEventType}

pub data Key : Type 0 where
  -- of alerts
  clock_tampering mock_location barcode_lockout device_offline : (device : ℕ) → Key
  battery_low location_disabled : (device : ℕ) → Key
  after_return_exit not_returned : (session : ℕ) → Key
  security : (device : ℕ) → SecurityEventType → Key
  unknown_badge : (device hour : ℕ) → Key
  unauthorized : (device user hour : ℕ) → Key
  -- of alerts and commands
  offline_revalidation : (session : ℕ) → Key
  -- of commands
  scheduled_lock : (instant : ℕ) → Key
  session_expired force_logout : (session : ℕ) → Key
  given : (text : ℕ) → Key

pub Key-discrete : Discrete Key
Key-discrete = hlevel ℕ_discrete

pub same_key : Key → Key → Bool
same_key a b = decide (Key-discrete a b)

pub same_key_iff : (a b : Key) → (same_key a b ≡ true) ↔ (a ≡ b)
unfolding same_key
same_key_iff a b = decide_iff (Key-discrete a b)

pub same_key_refl : (a : Key) → same_key a a ≡ true
same_key_refl a = (same_key_iff a a).1 refl

abbrev pub has_key : Key → Option Key → Bool
has_key k none = false
has_key k (some j) = same_key j k
