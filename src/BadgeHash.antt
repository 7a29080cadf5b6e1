-- ===== src/BadgeHash.antt =====
-- apps/api/src/crypto/badge-hash.service.ts: the normalisation of a barcode, its hash and its mask.
-- A text is the list of its code points. HMAC and HKDF are parameters.
pub mod Normal
use phone_control.Common.{
  ℕ, suc, zero, ◌+◌, ◌-◌, ◌≡◌, Bool, true, false, ◌&&◌, ◌||◌, List, [], ◌∷◌, ◌++◌, Option, none,
  some, ltb, leb, ◌==◌, if◌then◌else◌, keep, length, map, get_or,
}
use phone_control.Common.Texts.{trim_start, trim_end}
use phone_control.Rules.Clock.{Text}

-- `[A-Z0-9]`
abbrev pub is_alphanumeric : ℕ → Bool
is_alphanumeric c = (leb b'A' c && leb c b'Z') || (leb b'0' c && leb c b'9')

-- `other` is the table of `toUpperCase` beyond ASCII, where a letter may become several.
module _ (other : ℕ → Text) where
  abbrev pub upper_of : ℕ → Text
  upper_of c =
      if ltb 127 c then other c else if leb b'a' c && leb c b'z' then (c - 32) ∷ [] else c ∷ []

  abbrev pub to_upper : Text → Text
  to_upper [] = []
  to_upper (c ∷ cs) = upper_of c ++ to_upper cs

  -- `none` is the exception `BadgeNormalizationError`.
  unfoldable pub normalize_barcode : Text → Option Text
  normalize_barcode raw =
      let normalized = keep is_alphanumeric (to_upper (trim_end (trim_start raw))) in
      if ltb (length normalized) 4 || ltb 32 (length normalized) then none else some normalized

abbrev pub repeat_star : ℕ → Text
repeat_star zero = []
repeat_star (suc n) = b'*' ∷ repeat_star n

unfoldable pub mask_barcode : (last4 : Text) (length : ℕ) → Text
mask_barcode last4 n = repeat_star (n - length last4) ++ last4

abbrev pub drop : ℕ → Text → Text
drop zero cs = cs
drop (suc n) [] = []
drop (suc n) (c ∷ cs) = drop n cs

-- `slice(-4)`
unfoldable pub last_four : Text → Text
last_four cs = drop (length cs - 4) cs

pub record Described : Type 0 where
  pub normalized : Text
  pub hash : ℕ
  pub last4 : Text
  pub length : ℕ
  pub hash_version : ℕ

-- `hmac version value` is the HMAC, with the pepper, of the text `v<version>:<value>`.
module _ (other : ℕ → Text) (hmac : ℕ → Text → ℕ) (version : ℕ) where
  abbrev pub described : Text → Described
  described normalized = record {
    normalized = normalized;
    hash = hmac version normalized;
    last4 = last_four normalized;
    length = length normalized;
    hash_version = version;
  }

  unfoldable pub describe : Text → Option Described
  unfolding normalize_barcode
  describe raw = elim (normalize_barcode other raw) [
    | none ↦ none
    | some normalized ↦ some (described normalized)
  ]
