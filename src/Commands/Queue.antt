-- ===== src/Commands/Queue.antt =====
-- One command for each idempotency key of a device.
use phone_control.Common.{
  ℕ, suc, ◌+◌, ◌≡◌, ◌≤◌, true, List, [], ◌∷◌, ◌++◌, ◌&&◌, none, some, arith, ◌==◌, refl, ap, sym,
  ◌∙◌, inl, inr, Bool-cases, Option-cases, if◌then◌else◌, count_where, count_where-append,
  find_first-none, find_first-satisfies,
}
use phone_control.Store.Keys.{Key, has_key, same_key_iff}
use phone_control.Store.{DeviceCommand, Db, done}
use phone_control.Commands.{
  EnqueueParams, new_command, is_keyed, find_keyed, create_command, enqueue_amid,
}

-- What the database guarantees by its index device_commands_idempotency_uidx.
abbrev pub IsIdempotent : Db → Type 0
IsIdempotent db = (device : ℕ) (key : Key) → count_where (is_keyed device key) db.commands ≤ 1

module _ (params : EnqueueParams) (id now : ℕ) (commands : List DeviceCommand) where
  count-new_command :
      (device : ℕ) (key : Key)
      → count_where (is_keyed device key) (commands ++ new_command params id now ∷ [])
        ≡ count_where (is_keyed device key) commands
          + (if params.device_id == device && has_key key params.idempotency_key then 1 else 0)
  count-new_command device key =
      rw (count_where-append (is_keyed device key) commands (new_command params id now ∷ []))
        (ground arith)

  key_of_has_key :
      (key : Key) → has_key key params.idempotency_key ≡ true → params.idempotency_key ≡ some key
  key_of_has_key key h = elim (Option-cases params.idempotency_key) [
    | inl e ↦ cc (rw e at h)
    | inr (j, e) ↦ rw e (ap some ((same_key_iff j key).0 (rw e at h)))
  ]

  count-insert :
      (device : ℕ) (key : Key)
      → find_keyed params.device_id params.idempotency_key commands ≡ none
      → count_where (is_keyed device key) commands ≤ 1
      → count_where (is_keyed device key) (commands ++ new_command params id now ∷ []) ≤ 1
  count-insert device key e h =
      elim (Bool-cases (params.device_id == device && has_key key params.idempotency_key)) [
        | inl same ↦
            let d : params.device_id ≡ device = ground arith in
            let k = key_of_has_key key (ground arith) in
            let zero = find_first-none (is_keyed device key) commands (rw (k, d) at e) in
            rw (count-new_command device key, same) (omega (arith, zero))
        | inr other ↦ rw (count-new_command device key, other) (omega arith)
      ]

create_command-IsIdempotent :
    (params : EnqueueParams) (id now : ℕ) (db : Db)
    → IsIdempotent db
    → IsIdempotent (create_command params id now db).1
unfolding create_command
create_command-IsIdempotent params id now db h device key =
    elim (Option-cases (find_keyed params.device_id params.idempotency_key db.commands)) [
      | inl free ↦
          rw (free, create_command)
            (count-insert params id now db.commands device key free (h device key))
      | inr (c, conflict) ↦ rw (conflict, create_command) (h device key)
    ]

-- The command that answers a call: of the device and the key that were asked for.
abbrev pub Answers : EnqueueParams → DeviceCommand → Type 0
Answers params c = (c.device_id ≡ params.device_id) × (c.idempotency_key ≡ params.idempotency_key)

find_keyed-Answers :
    (params : EnqueueParams) (commands : List DeviceCommand) (c : DeviceCommand)
    → find_keyed params.device_id params.idempotency_key commands ≡ some c
    → Answers params c
find_keyed-Answers params commands c e = elim (Option-cases params.idempotency_key) [
  | inl no_key ↦ absurd (cc (rw no_key at e))
  | inr (key, keyed) ↦
      let h = find_first-satisfies (is_keyed params.device_id key) commands c (rw keyed at e) in
      elim (Option-cases c.idempotency_key) [
        | inl no_key ↦ absurd (ground arith)
        | inr (j, keyed') ↦
            (ground arith, keyed' ∙ ap some ((same_key_iff j key).0 (ground arith)) ∙ sym keyed)
      ]
]

create_command-Answers :
    (params : EnqueueParams) (id now : ℕ) (db : Db)
    → (c : DeviceCommand) × ((create_command params id now db).0 ≡ done c) × Answers params c
unfolding create_command
create_command-Answers params id now db =
    elim (Option-cases (find_keyed params.device_id params.idempotency_key db.commands)) [
      | inl free ↦ (new_command params id now, rw (free, create_command), (refl, refl))
      | inr (c, conflict) ↦
          (c, rw (conflict, create_command), find_keyed-Answers params db.commands c conflict)
    ]

-- Whatever other requests write between the search and the insertion, as long as they too keep one
-- command for each key of a device, so does a call; and it answers, never throwing, with a command
-- of the device and the key that were asked for.
pub enqueue_amid-IsIdempotent :
    (between : Db → Db) (params : EnqueueParams) (now : ℕ) (db : Db)
    → ((d : Db) → IsIdempotent d → IsIdempotent (between d))
    → IsIdempotent db
    → IsIdempotent (enqueue_amid between params now db).1
      × ((c : DeviceCommand) × ((enqueue_amid between params now db).0 ≡ done c) × Answers params c)
unfolding enqueue_amid
enqueue_amid-IsIdempotent between params now db keeps h =
    let db' = record db { issued = suc db.issued } in
    elim (Option-cases (find_keyed params.device_id params.idempotency_key db.commands)) [
      | inl missing ↦
          rw (missing, enqueue_amid)
            (
              create_command-IsIdempotent params (db.ids db.issued) now (between db') (keeps db' h),
              create_command-Answers params (db.ids db.issued) now (between db'),
            )
      | inr (c, found) ↦
          rw (found, enqueue_amid) (h, (c, refl, find_keyed-Answers params db.commands c found))
    ]
