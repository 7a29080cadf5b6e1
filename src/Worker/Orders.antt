-- ===== src/Worker/Orders.antt =====
-- What a loop of orders writes, and what it leaves alone.
use mathlib.Core.Path.{subst}
use phone_control.Common.{
  find_first-none, ℕ, suc, ◌≡◌, ◌≤◌, ◌∙◌, List, [], ◌∷◌, ◌++◌, none, some, arith, refl, ap, sym,
  true, inl, inr, Option-cases, count_where, count_where-append, find_first-some, All,
}
use phone_control.Store.Enums.{CommandType}
use phone_control.Commands.Orders.{IsOnly, enqueue-IsOnly}
use phone_control.Store.Keys.{Key, has_key, same_key_refl}
use phone_control.Store.{Db, DeviceCommand, Message, done, continue-done}
use phone_control.Commands.{
  EnqueueParams, new_command, is_keyed, find_keyed, create_command, enqueue_amid, enqueue,
}
use phone_control.Commands.Queue.{IsIdempotent, enqueue_amid-IsIdempotent}
use phone_control.Worker.{enqueue_all}

module _ (params : EnqueueParams) (now : ℕ) (db : Db) where
  abbrev added : Db
  added = record db {
    issued = suc db.issued;
    commands = db.commands ++ new_command params (db.ids db.issued) now ∷ [];
    outbox = db.outbox ++ Message.wake_device params.device_id params.command ∷ [];
  }

  enqueue_repeated :
      (c : DeviceCommand)
      → find_keyed params.device_id params.idempotency_key db.commands ≡ some c
      → enqueue params now db ≡ (done c, record db { issued = suc db.issued })
  unfolding enqueue enqueue_amid
  enqueue_repeated c found = rw (found, enqueue, enqueue_amid) refl

  enqueue_fresh :
      find_keyed params.device_id params.idempotency_key db.commands ≡ none
      → enqueue params now db ≡ (done (new_command params (db.ids db.issued) now), added)
  unfolding enqueue enqueue_amid create_command
  enqueue_fresh missing = rw (missing, enqueue, enqueue_amid) (rw (missing, create_command) refl)

-- The order of one device and key is in the queue.
abbrev pub IsQueued : ℕ → Key → Db → Type 0
IsQueued device key db = 1 ≤ count_where (is_keyed device key) db.commands

module _ (params : EnqueueParams) (now : ℕ) (db : Db) where
  pub enqueue-answers : (c : DeviceCommand) × ((enqueue params now db).0 ≡ done c)
  enqueue-answers =
      elim (Option-cases (find_keyed params.device_id params.idempotency_key db.commands)) [
        | inl missing ↦ (
          new_command params (db.ids db.issued) now,
          ap (λ r. r.0) (enqueue_fresh params now db missing),
        )
        | inr (c, found) ↦ (c, ap (λ r. r.0) (enqueue_repeated params now db c found))
      ]

  -- What `enqueue` does not write.
  pub enqueue-rest :
      ((enqueue params now db).1.sessions ≡ db.sessions)
      × ((enqueue params now db).1.devices ≡ db.devices)
      × ((enqueue params now db).1.depots ≡ db.depots)
  enqueue-rest =
      elim (Option-cases (find_keyed params.device_id params.idempotency_key db.commands)) [
        | inl missing ↦ rw (enqueue_fresh params now db missing) (refl, refl, refl)
        | inr (c, found) ↦ rw (enqueue_repeated params now db c found) (refl, refl, refl)
      ]

  pub enqueue-IsQueued_kept :
      (device : ℕ) (key : Key)
      → IsQueued device key db
      → IsQueued device key (enqueue params now db).1
  enqueue-IsQueued_kept device key h =
      let new = new_command params (db.ids db.issued) now in
      elim (Option-cases (find_keyed params.device_id params.idempotency_key db.commands)) [
        | inl missing ↦
            rw
              (
                enqueue_fresh params now db missing,
                count_where-append (is_keyed device key) db.commands (new ∷ []),
              )
              (omega (arith, h))
        | inr (c, found) ↦ rw (enqueue_repeated params now db c found) h
      ]

  pub enqueue-IsQueued :
      (key : Key)
      → params.idempotency_key ≡ some key
      → IsQueued params.device_id key (enqueue params now db).1
  enqueue-IsQueued key keyed =
      let new = new_command params (db.ids db.issued) now in
      elim (Option-cases (find_keyed params.device_id params.idempotency_key db.commands)) [
        | inl missing ↦
            rw
              (
                enqueue_fresh params now db missing,
                count_where-append (is_keyed params.device_id key) db.commands (new ∷ []),
                keyed,
              )
              (let k = same_key_refl key in ground (arith, k))
        | inr (c, found) ↦
            rw (enqueue_repeated params now db c found)
              (find_first-some (is_keyed params.device_id key) db.commands c (rw keyed at found))
      ]

  enqueue-again :
      (key : Key)
      → params.idempotency_key ≡ some key
      → IsQueued params.device_id key db
      → (enqueue params now db).1.commands ≡ db.commands
  enqueue-again key keyed h =
      elim (Option-cases (find_keyed params.device_id params.idempotency_key db.commands)) [
        | inl missing ↦
            let none_yet =
              find_first-none (is_keyed params.device_id key) db.commands (rw keyed at missing) in
            absurd (omega (arith, none_yet, h))
        | inr (c, found) ↦ rw (enqueue_repeated params now db c found) refl
      ]

module _ {A : Type 0} (order : A → EnqueueParams) (key : A → Key) (now : ℕ) where
  -- An order with a key of its own for each.
  abbrev pub IsKeyed : A → Type 0
  IsKeyed a = (order a).idempotency_key ≡ some (key a)

  abbrev pub Ordered : Db → A → Type 0
  Ordered db a = IsQueued (order a).device_id (key a) db

  enqueue_all-step :
      (a : A) (rest : List A) (db : Db)
      → enqueue_all now order (a ∷ rest) db
        ≡ enqueue_all now order rest (enqueue (order a) now db).1
  unfolding enqueue_all
  enqueue_all-step a rest db =
      let (c, answer) = enqueue-answers (order a) now db in
      continue-done (enqueue (order a) now db) c (λ _. enqueue_all now order rest) answer

  -- A loop answers, and writes neither sessions nor devices nor depots.
  pub enqueue_all-rest :
      (list : List A) (db : Db)
      → ((enqueue_all now order list db).0 ≡ done tt)
        × ((enqueue_all now order list db).1.sessions ≡ db.sessions)
        × ((enqueue_all now order list db).1.devices ≡ db.devices)
        × ((enqueue_all now order list db).1.depots ≡ db.depots)
  unfolding enqueue_all
  enqueue_all-rest [] db = (refl, refl, refl, refl)
  enqueue_all-rest (a ∷ rest) db =
      let here = enqueue-rest (order a) now db in
      let (d, s, v, p) = enqueue_all-rest rest (enqueue (order a) now db).1 in
      rw (enqueue_all-step a rest db) (d, s ∙ here.0, v ∙ here.1, p ∙ here.2)

  pub enqueue_all-IsQueued :
      (device : ℕ) (k : Key) (list : List A) (db : Db)
      → IsQueued device k db
      → IsQueued device k (enqueue_all now order list db).1
  unfolding enqueue_all
  enqueue_all-IsQueued device k [] db h = h
  enqueue_all-IsQueued device k (a ∷ rest) db h = rw (enqueue_all-step a rest db) (
      enqueue_all-IsQueued device k rest (enqueue (order a) now db).1
        (enqueue-IsQueued_kept (order a) now db device k h))

  pub enqueue_all-Ordered :
      (list : List A) (db : Db)
      → All IsKeyed list
      → All (Ordered (enqueue_all now order list db).1) list
  unfolding enqueue_all
  enqueue_all-Ordered [] db h = tt
  enqueue_all-Ordered (a ∷ rest) db h =
      let next = (enqueue (order a) now db).1 in
      subst (λ r. All (Ordered r.1) (a ∷ rest)) (sym (enqueue_all-step a rest db))
        (
          enqueue_all-IsQueued (order a).device_id (key a) rest next
              (enqueue-IsQueued (order a) now db (key a) h.0),
          enqueue_all-Ordered rest next h.1,
        )

  pub enqueue_all-IsIdempotent :
      (list : List A) (db : Db) → IsIdempotent db → IsIdempotent (enqueue_all now order list db).1
  unfolding enqueue_all enqueue
  enqueue_all-IsIdempotent [] db h = h
  enqueue_all-IsIdempotent (a ∷ rest) db h = rw (enqueue_all-step a rest db) (
      enqueue_all-IsIdempotent rest (enqueue (order a) now db).1
        (enqueue_amid-IsIdempotent (λ d. d) (order a) now db (λ d k. k) h).0)

  -- Orders that are this command, or not under the key.
  pub enqueue_all-IsOnly :
      (command : CommandType) (k : Key)
      → ((a : A) → has_key k (order a).idempotency_key ≡ true → (order a).command ≡ command)
      → (list : List A) (db : Db) → IsOnly command k db.commands
      → IsOnly command k (enqueue_all now order list db).1.commands
  unfolding enqueue_all
  enqueue_all-IsOnly command k own [] db h = h
  enqueue_all-IsOnly command k own (a ∷ rest) db h = rw (enqueue_all-step a rest db) (
      enqueue_all-IsOnly command k own rest (enqueue (order a) now db).1
        (enqueue-IsOnly command k (order a) now db (own a) h))

  -- With every order in the queue before, a loop adds none.
  pub enqueue_all-again :
      (list : List A) (db : Db)
      → All IsKeyed list
      → All (Ordered db) list
      → (enqueue_all now order list db).1.commands ≡ db.commands
  unfolding enqueue_all
  enqueue_all-again [] db h queued = refl
  enqueue_all-again (a ∷ rest) db h queued =
      let same = enqueue-again (order a) now db (key a) h.0 queued.0 in
      let next = (enqueue (order a) now db).1 in
      rw (enqueue_all-step a rest db) (
        enqueue_all-again rest next h.1 (
          subst (λ cs. All (λ x. 1 ≤ count_where (is_keyed (order x).device_id (key x)) cs) rest)
            (sym same) queued.1)
        ∙ same)
