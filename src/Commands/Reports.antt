-- ===== src/Commands/Reports.antt =====
-- What a phone's report on a command does.
use phone_control.Common.{
  ℕ, ◌≡◌, ◌≢◌, ◌↔◌, false, List, [], ◌∷◌, ◌++◌, none, some, arith, refl, sym, ap, ◌∙◌, inl, inr,
  Bool-cases, if◌then◌else◌, ◌==◌, All, find_first, find_first-satisfies, update_where, count_where,
}
use phone_control.Store.Enums.{
  CommandType, CommandStatus, DeviceState, SecurityEventType, is_executed, is_active_session,
  SessionStatus, SessionEndReason,
}
use phone_control.Store.{DeviceCommand, Device, Session, SecurityEvent, Db, done}
use phone_control.Commands.{
  Outcome, executed, failed, reported, is_command_of, is_active_on, close_session,
  apply_side_effects, side_effects_of, write_report, report_result, event_type_of, severity_of,
}

-- The commands whose execution ends the sessions of the phone.
abbrev pub Locks : CommandType → Type 0
Locks CommandType.lock_device = Unit
Locks CommandType.force_logout = Unit
Locks CommandType.revoke_session = Unit
Locks _ = ⊥

closed_none :
    (device now : ℕ) (status : SessionStatus) (reason : SessionEndReason) (ss : List Session)
    → is_active_session status ≡ false
    → count_where
        (is_active_on device)
        (update_where (is_active_on device) (close_session status reason now) ss)
      ≡ 0
closed_none device now status reason [] h = refl
closed_none device now status reason (s ∷ ss) h =
    ground (arith, closed_none device now status reason ss h)

abbrev pub IsLocked : ℕ → Db → Type 0
IsLocked device db =
    (count_where (is_active_on device) db.sessions ≡ 0)
    × All (λ d. d.id ≡ device → d.state ≡ DeviceState.locked) db.devices

pub locked_devices :
    (device : ℕ) (ds : List Device)
    → All
        (λ d. d.id ≡ device → d.state ≡ DeviceState.locked)
        (update_where (λ d. d.id == device) (λ d. record d { state = DeviceState.locked }) ds)
locked_devices device [] = tt
locked_devices device (d ∷ ds) = (ground arith, locked_devices device ds)

apply_side_effects-IsLocked :
    (command : CommandType) (device now : ℕ) (db : Db)
    → Locks command
    → IsLocked device (apply_side_effects command device now db)
unfolding apply_side_effects
apply_side_effects-IsLocked CommandType.lock_device device now db l =
    (closed_none device now _ _ db.sessions refl, locked_devices device db.devices)
apply_side_effects-IsLocked CommandType.force_logout device now db l =
    (closed_none device now _ _ db.sessions refl, locked_devices device db.devices)
apply_side_effects-IsLocked CommandType.revoke_session device now db l =
    (closed_none device now _ _ db.sessions refl, locked_devices device db.devices)
apply_side_effects-IsLocked _ device now db l = elim l [ ]

failed_commands :
    (id now : ℕ) (cs : List DeviceCommand)
    → All
        (λ x. x.id ≡ id → x.status ≡ CommandStatus.failed)
        (update_where (λ x. x.id == id) (reported failed now) cs)
failed_commands id now [] = tt
failed_commands id now (c ∷ cs) = (ground arith, failed_commands id now cs)

-- The side effects leave the journal and the supply of identifiers alone.
abbrev SameJournal : Db → Db → Type 0
SameJournal a b = (a.security_events ≡ b.security_events) × (a.ids ≡ b.ids) × (a.issued ≡ b.issued)

apply_side_effects-SameJournal :
    (command : CommandType) (device now : ℕ) (db : Db)
    → SameJournal (apply_side_effects command device now db) db
unfolding apply_side_effects
apply_side_effects-SameJournal CommandType.lock_device device now db = (refl, refl, refl)
apply_side_effects-SameJournal CommandType.force_logout device now db = (refl, refl, refl)
apply_side_effects-SameJournal CommandType.revoke_session device now db = (refl, refl, refl)
apply_side_effects-SameJournal CommandType.unlock_device device now db = (refl, refl, refl)
apply_side_effects-SameJournal _ device now db = (refl, refl, refl)

side_effects_of-SameJournal :
    (outcome : Outcome) (c : DeviceCommand) (now : ℕ) (db : Db)
    → SameJournal (side_effects_of outcome c now (write_report c outcome now db)) db
unfolding side_effects_of
side_effects_of-SameJournal executed c now db =
    apply_side_effects-SameJournal c.command c.device_id now (write_report c executed now db)
side_effects_of-SameJournal failed c now db = (refl, refl, refl)

-- What the journal calls a report: that the phone was locked or unlocked when that was executed, and
-- a failed command in all other cases.
abbrev pub Reports : Outcome → CommandType → SecurityEventType → Type 0
Reports outcome command type =
    ((type ≡ SecurityEventType.lock_device)
      ↔ ((outcome ≡ executed) × (command ≡ CommandType.lock_device)))
    × ((type ≡ SecurityEventType.unlock_device)
        ↔ ((outcome ≡ executed) × (command ≡ CommandType.unlock_device)))
    × ((type ≡ SecurityEventType.command_failed) ↔ (
        (outcome ≡ executed)
        → (command ≢ CommandType.lock_device) × (command ≢ CommandType.unlock_device)))

event_type_of-Reports :
    (outcome : Outcome) (command : CommandType)
    → Reports outcome command (event_type_of outcome command)
event_type_of-Reports failed command = ground arith
event_type_of-Reports executed command = ground arith

module _ (device id now : ℕ) (db : Db) (c : DeviceCommand)
    (found : find_first (is_command_of device id) db.commands ≡ some c) where
  abbrev reported_event : Outcome → SecurityEvent
  reported_event outcome = record {
    id = db.ids db.issued;
    event_id = none;
    company_id = c.company_id;
    device_id = device;
    user_id = none;
    session_id = none;
    type = event_type_of outcome c.command;
    severity = severity_of outcome;
    occurred_at = now;
    clock_suspect = false;
  }

  of_device : c.device_id ≡ device
  of_device =
      let h = find_first-satisfies (is_command_of device id) db.commands c found in ground arith

module _ (device id now : ℕ) (db : Db) (c : DeviceCommand)
    (found : find_first (is_command_of device id) db.commands ≡ some c)
    (fresh : is_executed c.status ≡ false) where
  -- A report, on a command that was not executed before, that a command which locks was executed ends every active session of the phone
  -- and marks the phone locked.
  pub report_result-IsLocked :
      Locks c.command
      → ((report_result device id executed now db).0 ≡ done tt)
        × IsLocked device (report_result device id executed now db).1
  unfolding report_result
  report_result-IsLocked l =
      rw (found, report_result)
        (rw (fresh, report_result)
          (
            refl,
            rw (← of_device device id now db c found)
                (apply_side_effects-IsLocked c.command c.device_id now _ l),
          ))

  -- Such a report of a failure touches neither sessions nor phones, and marks the command failed.
  pub report_result_failed :
      ((report_result device id failed now db).1.sessions ≡ db.sessions)
      × ((report_result device id failed now db).1.devices ≡ db.devices)
      × All
          (λ x. x.id ≡ c.id → x.status ≡ CommandStatus.failed)
          (report_result device id failed now db).1.commands
  unfolding report_result
  report_result_failed =
      rw (found, report_result)
        (rw (fresh, report_result) (refl, refl, failed_commands c.id now db.commands))

  report_result_journal :
      (outcome : Outcome)
      → (report_result device id outcome now db).1.security_events
        ≡ db.security_events ++ reported_event device id now db c found outcome ∷ []
  unfolding report_result
  report_result_journal outcome =
      let (events, supply, count) = side_effects_of-SameJournal outcome c now db in
      rw (found, report_result) (rw (fresh, report_result) (cc (events, supply, count)))

append-nil : (events : List SecurityEvent) → events ++ [] ≡ events
append-nil [] = refl
append-nil (e ∷ es) = ap (λ r. e ∷ r) (append-nil es)

-- A report on a command of the phone, of an execution or of a failure: it adds nothing to the journal
-- when the command was reported as executed before, and one event otherwise. The event is for the
-- phone and the company of the command. It says that the phone was locked or unlocked exactly when a
-- command to lock or to unlock was executed, and else, so for every other command that was executed
-- too, that a command failed.
pub report_result_journal_type :
    (device id now : ℕ) (outcome : Outcome) (db : Db) (c : DeviceCommand)
    → find_first (is_command_of device id) db.commands ≡ some c
    → (e : SecurityEvent) × ((report_result device id outcome now db).1.security_events
        ≡ db.security_events ++ (if is_executed c.status then [] else e ∷ []))
      × (e.device_id ≡ device)
      × (e.company_id ≡ c.company_id)
      × Reports outcome c.command e.type
unfolding report_result
report_result_journal_type device id now outcome db c found = (
  reported_event device id now db c found outcome,
  elim (Bool-cases (is_executed c.status)) [
    | inl again ↦ rw (found, report_result) (rw again (sym (append-nil db.security_events)))
    | inr fresh ↦ report_result_journal device id now db c found fresh outcome ∙ rw fresh refl
  ],
  refl,
  refl,
  event_type_of-Reports outcome c.command,
)
