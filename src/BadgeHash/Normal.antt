-- ===== src/BadgeHash/Normal.antt =====
-- What a normalised barcode is, and what the normalisation does not see.
use phone_control.Common.{
  ℕ, suc, zero, ◌-◌, ◌≡◌, ◌≤◌, Bool, true, [], ◌∷◌, ◌++◌, Option, none, some, ltb, refl, ap, sym,
  ◌∙◌, inl, inr, Bool-cases, keep, length, length-append, All, arith, if◌then◌else◌, ◌||◌,
}
use mathlib.Core.Path.{subst}
use phone_control.Common.Sort.{All-keep}
use phone_control.Rules.Clock.{Text}
use phone_control.Common.Texts.{is_space, trim_start, trim_end, cons_trimmed}
use phone_control.BadgeHash.{
  is_alphanumeric, upper_of, to_upper, normalize_barcode, repeat_star, mask_barcode, drop,
  last_four, described, describe,
}

keep-append : (p : ℕ → Bool) (xs ys : Text) → keep p (xs ++ ys) ≡ keep p xs ++ keep p ys
keep-append p [] ys = refl
keep-append p (x ∷ xs) ys = elim (Bool-cases (p x)) [
  | inl e ↦ rw e (ap (λ r. x ∷ r) (keep-append p xs ys))
  | inr e ↦ rw e (keep-append p xs ys)
]

module _ (other : ℕ → Text) where
  -- A character of which the normalisation keeps nothing.
  abbrev pub IsSeparator : ℕ → Type 0
  IsSeparator c = keep is_alphanumeric (upper_of other c) ≡ []

  abbrev pub letters : Text → Text
  letters cs = keep is_alphanumeric (to_upper other cs)

  letters-cons :
      (c : ℕ) (cs : Text) → letters (c ∷ cs) ≡ keep is_alphanumeric (upper_of other c) ++ letters cs
  letters-cons c cs = keep-append is_alphanumeric (upper_of other c) (to_upper other cs)

  letters-separator : (c : ℕ) (cs : Text) → IsSeparator c → letters (c ∷ cs) ≡ letters cs
  letters-separator c cs h = letters-cons c cs ∙ ap (λ r. r ++ letters cs) h

  letters_drop : (a b : Text) (c : ℕ) → IsSeparator c → letters (a ++ c ∷ b) ≡ letters (a ++ b)
  letters_drop [] b c h = letters-separator c b h
  letters_drop (x ∷ a) b c h =
      letters-cons x (a ++ c ∷ b)
      ∙ ap (λ r. keep is_alphanumeric (upper_of other x) ++ r) (letters_drop a b c h)
      ∙ sym (letters-cons x (a ++ b))

  -- Beyond ASCII too, a white space has no letters and digits as its upper case.
  module _ (spaces : (c : ℕ) → is_space c ≡ true → IsSeparator c) where
    letters-trim_start : (cs : Text) → letters (trim_start cs) ≡ letters cs
    letters-trim_start [] = refl
    letters-trim_start (c ∷ cs) = elim (Bool-cases (is_space c)) [
      | inl e ↦ rw e (letters-trim_start cs ∙ sym (letters-separator c cs (spaces c e)))
      | inr e ↦ rw e refl
    ]

    letters-cons_trimmed : (c : ℕ) (cs : Text) → letters (cons_trimmed c cs) ≡ letters (c ∷ cs)
    letters-cons_trimmed c [] = elim (Bool-cases (is_space c)) [
      | inl e ↦ rw e (sym (letters-separator c [] (spaces c e)))
      | inr e ↦ rw e refl
    ]
    letters-cons_trimmed c (d ∷ ds) = refl

    letters-trim_end : (cs : Text) → letters (trim_end cs) ≡ letters cs
    letters-trim_end [] = refl
    letters-trim_end (c ∷ cs) =
        letters-cons_trimmed c (trim_end cs)
        ∙ letters-cons c (trim_end cs)
        ∙ ap (λ r. keep is_alphanumeric (upper_of other c) ++ r) (letters-trim_end cs)
        ∙ sym (letters-cons c cs)

    abbrev checked : Text → Option Text
    checked cs = if ltb (length cs) 4 || ltb 32 (length cs) then none else some cs

    normalize_barcode-letters : (cs : Text) → normalize_barcode other cs ≡ checked (letters cs)
    unfolding normalize_barcode
    normalize_barcode-letters cs =
        ap checked (letters-trim_end (trim_start cs) ∙ letters-trim_start cs)

    upper_of_alphanumeric : (c : ℕ) → is_alphanumeric c ≡ true → upper_of other c ≡ c ∷ []
    upper_of_alphanumeric c h = ground arith

    letters_fixed : (cs : Text) → All (λ c. is_alphanumeric c ≡ true) cs → letters cs ≡ cs
    letters_fixed [] h = refl
    letters_fixed (c ∷ cs) h =
        letters-cons c cs
        ∙ rw (upper_of_alphanumeric c h.0, h.0) (ap (λ r. c ∷ r) (letters_fixed cs h.1))

    checked_inversion :
        (cs v : Text) → checked cs ≡ some v → (cs ≡ v) × (4 ≤ length cs) × (length cs ≤ 32)
    checked_inversion cs v e = ground arith

    -- A separator, wherever it stands in the code that is read, changes nothing.
    pub normalize_barcode-separator :
        (a b : Text) (c : ℕ)
        → IsSeparator c
        → normalize_barcode other (a ++ c ∷ b) ≡ normalize_barcode other (a ++ b)
    normalize_barcode-separator a b c h =
        normalize_barcode-letters (a ++ c ∷ b)
        ∙ ap checked (letters_drop a b c h)
        ∙ sym (normalize_barcode-letters (a ++ b))

    normalize_barcode_canonical :
        (raw v : Text)
        → normalize_barcode other raw ≡ some v
        → All (λ c. is_alphanumeric c ≡ true) v
          × (4 ≤ length v)
          × (length v ≤ 32)
          × (normalize_barcode other v ≡ some v)
    normalize_barcode_canonical raw v e =
        let (same, low, high) =
          checked_inversion (letters raw) v (sym (normalize_barcode-letters raw) ∙ e) in
        let alphanumeric : All (λ c. is_alphanumeric c ≡ true) v =
          subst (All (λ c. is_alphanumeric c ≡ true)) same
            (All-keep is_alphanumeric (to_upper other raw)) in
        let l : 4 ≤ length v = subst (λ x. 4 ≤ length x) same low in
        let u : length v ≤ 32 = subst (λ x. length x ≤ 32) same high in
        (
          alphanumeric,
          l,
          u,
          normalize_barcode-letters v
              ∙ ap checked (letters_fixed v alphanumeric)
              ∙ ground (arith, l, u),
        )

length-repeat_star : (n : ℕ) → length (repeat_star n) ≡ n
length-repeat_star zero = refl
length-repeat_star (suc n) = omega (arith, length-repeat_star n)

length-drop : (n : ℕ) (cs : Text) → length (drop n cs) ≡ length cs - n
length-drop zero cs = omega arith
length-drop (suc n) [] = omega arith
length-drop (suc n) (c ∷ cs) = omega (arith, length-drop n cs)

-- The mask of a text of four characters or more is as long, and its stars are the hidden ones.
length-mask_barcode :
    (cs : Text) → 4 ≤ length cs → length (mask_barcode (last_four cs) (length cs)) ≡ length cs
unfolding mask_barcode last_four
length-mask_barcode cs h = omega (
  arith,
  length-append (repeat_star (length cs - length (drop (length cs - 4) cs)))
      (drop (length cs - 4) cs),
  length-repeat_star (length cs - length (drop (length cs - 4) cs)),
  length-drop (length cs - 4) cs,
)

module _ (other : ℕ → Text) (hmac : ℕ → Text → ℕ) (version : ℕ) where
  describe_inversion :
      (raw v : Text)
      → normalize_barcode other raw ≡ some v
      → describe other hmac version raw ≡ some (described other hmac version v)
  unfolding describe
  describe_inversion raw v e = rw (e, describe) refl

  -- A barcode that is accepted has 4 to 32 letters and digits once normalised; it is described as
  -- its normalised text is, so that what is read decides the hash through that text alone; and the
  -- mask that is shown for it is as long as it, and shows at most four of its characters.
  pub describe_canonical :
      (raw v : Text)
      → ((c : ℕ) → is_space c ≡ true → IsSeparator other c)
      → normalize_barcode other raw ≡ some v
      → let d = described other hmac version v in
        (describe other hmac version raw ≡ some d)
        × (describe other hmac version v ≡ some d)
        × All (λ c. is_alphanumeric c ≡ true) v
        × (4 ≤ length v)
        × (length v ≤ 32)
        × (length d.last4 ≡ 4)
        × (length (mask_barcode d.last4 d.length) ≡ length v)
  unfolding last_four
  describe_canonical raw v spaces e =
      let (all, low, high, again) = normalize_barcode_canonical other spaces raw v e in
      (
        describe_inversion raw v e,
        describe_inversion v v again,
        all,
        low,
        high,
        omega (arith, length-drop (length v - 4) v),
        length-mask_barcode v low,
      )
