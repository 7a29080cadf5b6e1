-- ===== src/ScreenShare/Service/Readings.antt =====
-- The readings of apps/api/src/screen-share/screen-share.service.ts. `currentForDevice` is
-- `find_ongoing`.
use phone_control.Common.{
  ℕ, zero, suc, Bool, true, List, [], ◌∷◌, Option, none, some, ◌==◌, keep, count_where,
}
use phone_control.Common.Sort.{sort_by, take}
use phone_control.Store.{ScreenShareSession, M, read}
use phone_control.ScreenShare.Service.{is_share_of, is_share_in, load, newer}

unfoldable pub for_device : ℕ → ℕ → M ScreenShareSession
for_device device id = load (is_share_of device id)

unfoldable pub find_one : ℕ → ℕ → M ScreenShareSession
find_one company id = load (is_share_in company id)

-- `skip`
abbrev pub skip_first : ℕ → List ScreenShareSession → List ScreenShareSession
skip_first zero xs = xs
skip_first (suc n) [] = []
skip_first (suc n) (x ∷ xs) = skip_first n xs

abbrev pub is_share_on : Option ℕ → ScreenShareSession → Bool
is_share_on none s = true
is_share_on (some device) s = s.device_id == device

-- A page of the sessions, the newest first, with the number of all of them.
unfoldable pub history : Option ℕ → (take_count skip_count : ℕ) → M (List ScreenShareSession × ℕ)
history device n k = read λ db. (
  take n (skip_first k (sort_by newer (keep (is_share_on device) db.screen_shares))),
  count_where (is_share_on device) db.screen_shares,
)
