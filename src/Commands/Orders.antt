-- ===== src/Commands/Orders.antt =====
-- The orders that the queue holds under a key: which command it is.
use phone_control.Common.{
  ℕ, ◌≡◌, ◌≤◌, true, List, [], ◌∷◌, arith, refl, inl, inr, Option-cases, Bool-cases, count_where,
  All, All-append,
}
use phone_control.Common.Ids.{Within}
use phone_control.Store.Enums.{CommandType}
use phone_control.Store.Keys.{Key, has_key}
use phone_control.Store.{Db, DeviceCommand}
use phone_control.Commands.{
  EnqueueParams, is_keyed, find_keyed, create_command, enqueue_amid, enqueue,
}

-- Whatever is in the queue under the key is this command.
abbrev pub IsOnly : CommandType → Key → List DeviceCommand → Type 0
IsOnly command key = All λ c. has_key key c.idempotency_key ≡ true → c.command ≡ command

-- The command is in the queue, for the phone and under the key.
abbrev pub HasOrder : CommandType → (device : ℕ) → Key → List DeviceCommand → Type 0
HasOrder command device key cs =
    (c : DeviceCommand) × Within c cs
    × (c.device_id ≡ device)
    × (has_key key c.idempotency_key ≡ true)
    × (c.command ≡ command)

pub counted-HasOrder :
    (command : CommandType) (device : ℕ) (key : Key) (cs : List DeviceCommand)
    → 1 ≤ count_where (is_keyed device key) cs
    → IsOnly command key cs
    → HasOrder command device key cs
counted-HasOrder command device key [] n h = absurd (omega (arith, n))
counted-HasOrder command device key (c ∷ cs) n h = elim (Bool-cases (is_keyed device key c)) [
  | inl hit ↦
      let keyed : has_key key c.idempotency_key ≡ true = ground (arith, hit) in
      (c, inl refl, ground (arith, hit), keyed, h.0 keyed)
  | inr miss ↦
      let (d, within, own, keyed, same) =
        counted-HasOrder command device key cs (omega (arith, rw miss at n)) h.1 in
      (d, inr within, own, keyed, same)
]

pub enqueue-IsOnly :
    (command : CommandType) (key : Key) (params : EnqueueParams) (now : ℕ) (db : Db)
    → (has_key key params.idempotency_key ≡ true → params.command ≡ command)
    → IsOnly command key db.commands
    → IsOnly command key (enqueue params now db).1.commands
unfolding enqueue enqueue_amid create_command
enqueue-IsOnly command key params now db own h =
    elim (Option-cases (find_keyed params.device_id params.idempotency_key db.commands)) [
      | inl missing ↦
          rw (missing, enqueue, enqueue_amid)
            (rw (missing, create_command) (All-append _ db.commands _ h (own, tt)))
      | inr (c, found) ↦ rw (found, enqueue, enqueue_amid) h
    ]
