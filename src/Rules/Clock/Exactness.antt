-- ===== src/Rules/Clock/Exactness.antt =====
-- `parse_time` accepts the texts HH:mm of the day's 1440 minutes, and nothing else.
use phone_control.Common.{◌↔◌, ◌+◌, ◌/◌, ◌%◌, ◌<◌, ◌≡◌, [], ◌∷◌, some, arith}
use phone_control.Rules.Clock.{Text, LocalTime, parse_time}

-- The text of a time: two digits for the hour, a colon, two for the minute.
abbrev pub print_time : LocalTime → Text
print_time t =
    (48 + t.hour / 10)
    ∷ (48 + t.hour % 10)
    ∷ b':'
    ∷ (48 + t.minute / 10)
    ∷ (48 + t.minute % 10)
    ∷ []

abbrev pub IsTime : LocalTime → Type 0
IsTime t = (t.hour < 24) × (t.minute < 60)

-- Printing a time of the day and parsing it gives the time back.
parse_time-print_time : (t : LocalTime) → IsTime t → parse_time (print_time t) ≡ some t
unfolding parse_time
parse_time-print_time t h = ground arith

-- What is parsed is a time of the day, and its text is the one that was read.
pub parse_time_sound :
    (s : Text) (t : LocalTime) → parse_time s ≡ some t → IsTime t × (print_time t ≡ s)
unfolding parse_time
parse_time_sound (a ∷ b ∷ c ∷ d ∷ e ∷ []) t h = ground arith
parse_time_sound _ t h = ground arith

-- The texts that are parsed to a time of the day are its text HH:mm and no other, and nothing else
-- than a time of the day comes out.
pub parse_time_iff :
    (s : Text) (t : LocalTime) → (parse_time s ≡ some t) ↔ (IsTime t × (print_time t ≡ s))
parse_time_iff s t = (parse_time_sound s t, λ h. rw (← h.1) (parse_time-print_time t h.0))
