-- ===== src/Common/Texts.antt =====
-- Texts of ECMAScript as lists of characters: trimming, cutting and comparing.
use Prim.Native.Nat.{ℕ, ◌+◌}
use mathlib.Core.Path.{◌≡◌, refl}
use mathlib.Core.Bool.{Bool, true, false, ◌&&◌, ◌||◌}
use mathlib.Core.Option.{Option, none, some}
use mathlib.Core.List.{List, [], ◌∷◌}
use native.Mathlib.Omega.{arith}
use phone_control.Common.Tests.{leb, ◌==◌, if◌then◌else◌}

-- What `trim` removes: the white space and the line terminators of ECMAScript.
abbrev pub is_space : ℕ → Bool
is_space c =
    (leb 9 c && leb c 13)
    || c == 32
    || c == 160
    || c == 5760
    || (leb 8192 c && leb c 8202)
    || c == 8232
    || c == 8233
    || c == 8239
    || c == 8287
    || c == 12288
    || c == 65279

abbrev pub trim_start : List ℕ → List ℕ
trim_start [] = []
trim_start (c ∷ cs) = if is_space c then trim_start cs else c ∷ cs

abbrev pub cons_trimmed : ℕ → List ℕ → List ℕ
cons_trimmed c [] = if is_space c then [] else c ∷ []
cons_trimmed c (d ∷ ds) = c ∷ d ∷ ds

abbrev pub trim_end : List ℕ → List ℕ
trim_end [] = []
trim_end (c ∷ cs) = cons_trimmed c (trim_end cs)

abbrev pub trim : List ℕ → List ℕ
trim cs = trim_end (trim_start cs)

abbrev pub is_empty : List ℕ → Bool
is_empty [] = true
is_empty (c ∷ cs) = false

-- `===` on texts, and `timingSafeEqual` on bytes
abbrev pub same_text : List ℕ → List ℕ → Bool
same_text [] [] = true
same_text [] (d ∷ ds) = false
same_text (c ∷ cs) [] = false
same_text (c ∷ cs) (d ∷ ds) = c == d && same_text cs ds

-- The two sides of the first `c`, the right one none where there is no `c`.
abbrev pub before_char : (c : ℕ) → List ℕ → List ℕ
before_char c [] = []
before_char c (d ∷ ds) = if d == c then [] else d ∷ before_char c ds

abbrev pub after_char : (c : ℕ) → List ℕ → Option (List ℕ)
after_char c [] = none
after_char c (d ∷ ds) = if d == c then some ds else after_char c ds

-- `toLowerCase` on the letters of ASCII
abbrev pub lower_of : ℕ → ℕ
lower_of c = if leb b'A' c && leb c b'Z' then c + 32 else c

abbrev pub lower : List ℕ → List ℕ
lower [] = []
lower (c ∷ cs) = lower_of c ∷ lower cs

pub same_text_sound : (a b : List ℕ) → same_text a b ≡ true → a ≡ b
same_text_sound [] [] e = refl
same_text_sound [] (d ∷ ds) e = absurd (cc e)
same_text_sound (c ∷ cs) [] e = absurd (cc e)
same_text_sound (c ∷ cs) (d ∷ ds) e =
    let parts : (c ≡ d) × (same_text cs ds ≡ true) = ground arith in
    rw (parts.0, same_text_sound cs ds parts.1) refl

pub same_text_refl : (a : List ℕ) → same_text a a ≡ true
same_text_refl [] = refl
same_text_refl (c ∷ cs) = let here : (c == c) ≡ true = ground arith in rw here (same_text_refl cs)
