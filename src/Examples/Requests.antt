-- ===== src/Examples/Requests.antt =====
-- Alerts, commands, sessions and notifications.
use phone_control.Common.{◌≡◌, ◌⊎◌, ◌≤◌, refl, true, none, List, [], ◌∷◌, ◌++◌, arith, All, length}
use phone_control.Common.Ids.{Within}
use phone_control.Store.Enums.{CommandType}
use phone_control.Store.Keys.{Key, same_key_refl}
use phone_control.Store.{Db, DeviceCommand, SecurityEvent, done}
use phone_control.Alerts.{raise, raise_amid, new_alert, is_open_with, IsDeduped}
use phone_control.Alerts.Dedupe.{raise-IsDeduped}
use phone_control.Alerts.Races.{Reuses, raise_amid-IsDeduped}
use phone_control.Commands.{enqueue_amid, pull_pending, report_result, executed}
use phone_control.Commands.Queue.{IsIdempotent, Answers, enqueue_amid-IsIdempotent}
use phone_control.Commands.Delivery.{Awaits, IsUrgentFirst, IsSwept, pull_pending_deliverable}
use phone_control.Commands.Reports.{Reports, report_result_journal_type}
use phone_control.Examples.{db, input, lock, lock_request}

abbrev key : Key
key = Key.not_returned 70

abbrev open_db : Db
open_db = record db { alerts = new_alert input 9 ∷ [] }

open_db-IsDeduped : IsDeduped open_db
open_db-IsDeduped company k = ground arith

db-IsDeduped : IsDeduped db
db-IsDeduped company k = omega arith

open_here : is_open_with 1 key (new_alert input 9) ≡ true
open_here = rw (same_key_refl key) refl

-- Another request raises the same alert in between.
raise_amid-IsDeduped_example :
    let result = raise_amid (λ d. (raise input d).1) (λ d. d) input db in
    IsDeduped result.1 × Reuses none input db result
raise_amid-IsDeduped_example =
    raise_amid-IsDeduped (λ d. (raise input d).1) (λ d. d) input db (raise-IsDeduped input)
      (λ d h. h) db-IsDeduped

-- It raises the alert, and closes it before the second search.
abbrev opened : Db → Db
opened d = record d { alerts = new_alert input 9 ∷ [] }

abbrev closed : Db → Db
closed d = record d { alerts = [] }

enqueue_amid-IsIdempotent_example :
    IsIdempotent (enqueue_amid (λ d. d) lock_request 8 db).1
    × ((c : DeviceCommand) × ((enqueue_amid (λ d. d) lock_request 8 db).0 ≡ done c)
        × Answers lock_request c)
enqueue_amid-IsIdempotent_example =
    enqueue_amid-IsIdempotent (λ d. d) lock_request 8 db (λ d h. h) (λ device k. ground arith)

pull_pending_deliverable_example :
    (cs : List DeviceCommand) × ((pull_pending 7 20 db).0 ≡ done cs)
    × (length cs ≤ 50)
    × All (λ c. Within c db.commands × Awaits 7 20 c) cs
    × All (λ c. Awaits 7 20 c → Within c cs ⊎ (length cs ≡ 50)) db.commands
    × IsUrgentFirst cs
    × All (IsSwept 7 20) (pull_pending 7 20 db).1.commands
pull_pending_deliverable_example = pull_pending_deliverable 7 20 db (tt, tt)

report_result_journal_type_example :
    (e : SecurityEvent) × ((report_result 7 40 executed 30 db).1.security_events ≡ [] ++ e ∷ [])
    × (e.device_id ≡ 7)
    × (e.company_id ≡ 1)
    × Reports executed CommandType.lock_device e.type
report_result_journal_type_example = report_result_journal_type 7 40 30 executed db lock refl
