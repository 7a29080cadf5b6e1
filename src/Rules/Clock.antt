-- ===== src/Rules/Clock.antt =====
-- `parseTime` of apps/api/src/rules/schedule.ts. A text is the list of its code points.
pub mod Exactness
use phone_control.Common.{
  ℕ, ◌+◌, ◌-◌, ◌*◌, ◌/◌, ◌%◌, Bool, ◌&&◌, ◌||◌, List, [], ◌∷◌, Option, none, some, leb, ◌==◌,
  if◌then◌else◌,
}

abbrev pub Text : Type 0
Text = List ℕ

-- `{ hour, minute }`
pub record LocalTime : Type 0 where
  pub hour : ℕ
  pub minute : ℕ

-- `time.hour * 60 + time.minute`
abbrev pub minutes : LocalTime → ℕ
minutes t = t.hour * 60 + t.minute

-- `\d`
abbrev pub is_digit : ℕ → Bool
is_digit c = leb b'0' c && leb c b'9'

-- `[01]\d|2[0-3]`
is_hour : ℕ → ℕ → Bool
is_hour a b = ((a == b'0' || a == b'1') && is_digit b) || (a == b'2' && leb b'0' b && leb b b'3')

-- `[0-5]\d`
is_minute : ℕ → ℕ → Bool
is_minute a b = leb b'0' a && leb a b'5' && is_digit b

-- `Number` of two digits
two_digits : ℕ → ℕ → ℕ
two_digits a b = (a - 48) * 10 + (b - 48)

-- `none` stands for the ScheduleConfigError that the code throws.
unfoldable pub parse_time : Text → Option LocalTime
unfolding is_hour is_minute two_digits
parse_time (a ∷ b ∷ c ∷ d ∷ e ∷ []) =
    if is_hour a b && c == b':' && is_minute d e
    then some (record { hour = two_digits a b; minute = two_digits d e })
    else none
parse_time _ = none
