-- ===== src/AdminAuth/Lockout.antt =====
-- The lock of an account after wrong passwords.
use phone_control.Common.{
  ℕ, ◌+◌, ◌≡◌, ◌≤◌, ◌∙◌, refl, ap, inl, inr, Bool, true, false, ◌&&◌, List, [], ◌∷◌, Option, none,
  some, ◌==◌, ==_iff, leb, if◌then◌else◌, find_first, Bool-cases, arith, length, All,
}
use phone_control.Common.Ids.{find_first-update_where}
use phone_control.Common.{ltb}
use phone_control.AdminAuth.{invalid_credentials}
use phone_control.Rules.Clock.{Text}
use phone_control.AdminAuth.{
  Account, LoginEvent, Directory, temporarily_locked, logged_in, find_account, is_shut_account,
  is_locked_at, record_admin_event, set_failed, login_found, login,
}

through :
    {A : Type 0} (p q r : Bool) (x y z rest : A)
    → p ≡ false
    → q ≡ false
    → r ≡ false
    → (if p then x else if q then y else if r then z else rest) ≡ rest
through p q r x y z rest e f g = rw (e, f, g) refl

pick_first : {A : Type 0} (b : Bool) (x y : A) → b ≡ true → (if b then x else y) ≡ x
pick_first b x y e = rw e refl

pick_second : {A : Type 0} (b : Bool) (x y : A) → b ≡ false → (if b then x else y) ≡ y
pick_second b x y e = rw e refl

past_checks :
    {A : Type 0} (p q : Bool) (x y rest : A)
    → p ≡ false
    → q ≡ false
    → (if p then x else if q then y else rest) ≡ rest
past_checks p q x y rest e f = rw (e, f) refl

branches :
    {A B : Type 0} (p q : Bool) (x y z : A × B)
    → (if p then x else if q then y else z).0 ≡ (if p then x.0 else if q then y.0 else z.0)
branches true q x y z = refl
branches false true x y z = refl
branches false false x y z = refl

still_free :
    (now later : ℕ) (until : Option ℕ)
    → is_locked_at now until ≡ false
    → now ≤ later
    → is_locked_at later until ≡ false
still_free now later none free le = refl
still_free now later (some t) free le = ground arith

-- The events are beside the accounts.
record_admin_event-accounts :
    (company : Option ℕ) (event : LoginEvent) (dir : Directory)
    → (record_admin_event company event dir).accounts ≡ dir.accounts
record_admin_event-accounts none event dir = refl
record_admin_event-accounts (some c) event dir = refl

module _ (verify_password : ℕ → Text → Bool) (hash_token : Text → ℕ) (refresh_days : ℕ)
    (email now : ℕ) where
  -- Logins at one time, one after the other.
  abbrev pub try_all : List Text → Directory → Directory
  try_all [] dir = dir
  try_all (password ∷ rest) dir =
      try_all rest (login verify_password hash_token refresh_days email password [] now dir).1

  abbrev IsOpen : Account → Type 0
  IsOpen a = (is_shut_account a ≡ false) × (a.sso_only ≡ false)

  login_locked :
      (a : Account) (password token : Text) (later : ℕ) (dir : Directory)
      → find_account email dir ≡ some a
      → IsOpen a
      → is_locked_at later a.locked_until ≡ true
      → let (answer, after) =
          login verify_password hash_token refresh_days email password token later dir in
        (answer ≡ temporarily_locked) × (after.accounts ≡ dir.accounts)
  unfolding login
  login_locked a password token later dir found usable shut =
      rw (login, found, usable.0, usable.1, shut)
        (refl, record_admin_event-accounts a.company_id _ dir)

  login_fails :
      (a : Account) (password : Text) (dir : Directory)
      → find_account email dir ≡ some a
      → IsOpen a
      → is_locked_at now a.locked_until ≡ false
      → verify_password a.password_hash password ≡ false
      → find_account email
          (login verify_password hash_token refresh_days email password [] now dir).1
        ≡ some (set_failed (a.failed_attempts + 1) now a)
  unfolding login
  login_fails a password dir found usable free wrong =
      let run =
        ap (λ found. login_found verify_password hash_token refresh_days found password [] now dir)
          found
        ∙ through (is_shut_account a) a.sso_only (is_locked_at now a.locked_until) _ _ _ _ usable.0
            usable.1 free
        ∙ pick_second (verify_password a.password_hash password) _ _ wrong in
      ap (λ r. find_account email r.1) run
      ∙ ap (find_first (λ x. x.email == email)) (record_admin_event-accounts a.company_id _ _)
      ∙ find_first-update_where (λ x. x.email == email) (λ x. x.id == a.id)
          (set_failed (a.failed_attempts + 1) now) dir.accounts a (λ x. refl) found
      ∙ ap some (pick_first (a.id == a.id) _ _ ((==_iff a.id a.id).1 refl))

  -- What a login is told, for an account that is in use.
  login_answers :
      (a : Account) (password token : Text) (later : ℕ) (dir : Directory)
      → find_account email dir ≡ some a
      → IsOpen a
      → (login verify_password hash_token refresh_days email password token later dir).0 ≡ (
          if is_locked_at later a.locked_until
          then temporarily_locked
          else if verify_password a.password_hash password
          then logged_in a.id token
          else invalid_credentials)
  unfolding login
  login_answers a password token later dir found usable =
      ap (λ r. r.0)
        (ap
            (λ found.
              login_found verify_password hash_token refresh_days found password token later dir)
            found
          ∙ past_checks (is_shut_account a) a.sso_only _ _ _ usable.0 usable.1)
      ∙ branches (is_locked_at later a.locked_until) (verify_password a.password_hash password) _ _
          _

  -- While the lock holds, further passwords change no account.
  try_all_locked :
      (passwords : List Text) (a : Account) (dir : Directory)
      → find_account email dir ≡ some a
      → IsOpen a
      → is_locked_at now a.locked_until ≡ true
      → find_account email (try_all passwords dir) ≡ some a
  try_all_locked [] a dir found usable shut = found
  try_all_locked (password ∷ rest) a dir found usable shut =
      let (refused, same) = login_locked a password [] now dir found usable shut in
      try_all_locked rest a _ (ap (find_first (λ x. x.email == email)) same ∙ found) usable shut

  -- What the account is after wrong passwords, from fewer than five failures on.
  try_all_counts :
      (passwords : List Text) (a : Account) (dir : Directory)
      → find_account email dir ≡ some a
      → IsOpen a
      → is_locked_at now a.locked_until ≡ false
      → a.failed_attempts ≤ 4
      → All (λ password. verify_password a.password_hash password ≡ false) passwords
      → (b : Account) × (find_account email (try_all passwords dir) ≡ some b)
        × IsOpen b
        × (b.password_hash ≡ a.password_hash)
        × (b.id ≡ a.id)
        × ((later : ℕ)
            → now ≤ later
            → is_locked_at later b.locked_until
              ≡ (leb 5 (a.failed_attempts + length passwords) && ltb later (now + 900000)))
  try_all_counts [] a dir found usable free few wrong = (
    a,
    found,
    usable,
    refl,
    refl,
    λ later from. still_free now later a.locked_until free from ∙ ground arith,
  )
  try_all_counts (password ∷ rest) a dir found usable free few wrong =
      let attempts = a.failed_attempts + 1 in
      let b = set_failed attempts now a in
      let next = login_fails a password dir found usable free wrong.0 in
      elim (Bool-cases (leb 5 attempts)) [
        | inl e ↦
            let shut : is_locked_at now b.locked_until ≡ true = rw e (ground arith) in
            (
              b,
              try_all_locked rest b _ next usable shut,
              usable,
              refl,
              refl,
              λ later from. rw e (ground arith),
            )
        | inr e ↦
            let (c, kept, opened, same, same_id, until) =
              try_all_counts rest b _ next usable (rw e refl) (ground arith) wrong.1 in
            (c, kept, opened, same, same_id, λ later from. until later from ∙ ground arith)
      ]

-- An account with fewer than five failures takes any number of wrong passwords, all at one time.
-- If its failures are then five or more, each login before a quarter of an hour has passed is told
-- that the account is locked, with the right password as with a wrong one; from then on, and at any
-- time if they are fewer, the right password opens a session and a wrong one is refused as such.
pub login_after_failures :
    (verify_password : ℕ → Text → Bool) (hash_token : Text → ℕ) (refresh_days email now later : ℕ)
    (passwords : List Text) (password token : Text) (a : Account) (dir : Directory)
    → find_account email dir ≡ some a
    → is_shut_account a ≡ false
    → a.sso_only ≡ false
    → is_locked_at now a.locked_until ≡ false
    → a.failed_attempts ≤ 4
    → All (λ wrong. verify_password a.password_hash wrong ≡ false) passwords
    → now ≤ later
    → (login verify_password hash_token refresh_days email password token later
        (try_all verify_password hash_token refresh_days email now passwords dir)).0
      ≡ (if leb 5 (a.failed_attempts + length passwords) && ltb later (now + 900000)
          then temporarily_locked
          else if verify_password a.password_hash password
          then logged_in a.id token
          else invalid_credentials)
login_after_failures verify_password hash_token refresh_days email now later passwords password
      token a dir found shut sso free few wrong from =
    let (b, kept, usable, same, same_id, until) =
      try_all_counts verify_password hash_token refresh_days email now passwords a dir found
        (shut, sso) free few wrong in
    let known = until later from in
    let dir' = try_all verify_password hash_token refresh_days email now passwords dir in
    let hashed = ap (λ hash. verify_password hash password) same in
    login_answers verify_password hash_token refresh_days email now b password token later dir' kept
      usable
    ∙ (rw (known, hashed, same_id) refl)
