-- ===== src/Store/Monad.antt =====
-- The database, the messages that leave the server, and a handler: it reads and writes the
-- database, and answers or throws. What it wrote before it throws stays, unless a transaction
-- takes it back.
use phone_control.Common.{◌≡◌, refl, ℕ, suc, List, [], ◌∷◌, ◌++◌}
use phone_control.Store.Enums.{CommandType}
use phone_control.Store.Rows.{
  Device, Depot, Session, User, Badge, DeviceAssignment, DeviceCommand, Alert, SecurityEvent,
  GeofenceEvent, BarcodeScanEvent, LocationEvent, ScreenShareSession, DeviceCredential,
  EnrollmentToken,
}

-- What leaves the server: events for the dashboard, wake-ups of phones, notifications.
pub data Message : Type 0 where
  alert_created alert_updated : Alert → Message
  dispatch_alert : Alert → Message
  wake_device : (device : ℕ) → CommandType → Message
  session_changed : Session → Message
  device_updated : (device : ℕ) → Message
  screen_share_changed : (requested_by : ℕ) → ScreenShareSession → Message
  screen_share_frame : (requested_by session image sequence : ℕ) → Message

-- `ids` is the supply of UUIDs that `newId()` draws from, one for each call; `issued` counts the
-- calls. The newest row of a table stands last.
pub record Db : Type 0 where
  pub ids : ℕ → ℕ
  pub issued : ℕ
  pub devices : List Device
  pub depots : List Depot
  pub sessions : List Session
  pub users : List User
  pub badges : List Badge
  pub assignments : List DeviceAssignment
  pub commands : List DeviceCommand
  pub alerts : List Alert
  pub security_events : List SecurityEvent
  pub geofence_events : List GeofenceEvent
  pub scan_events : List BarcodeScanEvent
  pub location_events : List LocationEvent
  pub screen_shares : List ScreenShareSession
  pub credentials : List DeviceCredential
  pub enrollment_tokens : List EnrollmentToken
  pub outbox : List Message

-- What a handler throws.
pub data Error : Type 0 where
  not_found bad_request forbidden unique_violation record_not_found config_error : Error
  tenant_isolation processing_error unauthorized out_of_range : Error

pub data Reply {ℓ} (A : Type ℓ) : Type ℓ where
  done : A → Reply A
  raised : Error → Reply A

abbrev pub M : Type 0 → Type 0
M A = Db → Reply A × Db

abbrev pub continue : {A B : Type 0} → Reply A × Db → (A → M B) → Reply B × Db
continue (done a, db) f = f a db
continue (raised e, db) f = (raised e, db)

infixl 5 ◌>>=◌ ◌>>◌
abbrev pub ◌>>=◌ : {A B : Type 0} → M A → (A → M B) → M B
◌>>=◌ m f db = continue (m db) f

abbrev pub ◌>>◌ : {B : Type 0} → M (Unit {0}) → M B → M B
m >> k = m >>= λ _. k

abbrev pub pure : {A : Type 0} → A → M A
pure a db = (done a, db)

abbrev pub throw : {A : Type 0} → Error → M A
throw e db = (raised e, db)

abbrev pub skip : M (Unit {0})
skip = pure tt

abbrev pub read : {A : Type 0} → (Db → A) → M A
read f db = (done (f db), db)

abbrev pub modify : (Db → Db) → M (Unit {0})
modify f db = (done tt, f db)

-- `$transaction`: nothing is written if the body throws.
abbrev pub commit : {A : Type 0} → Db → Reply A × Db → Reply A × Db
commit db (done a, db') = (done a, db')
commit db (raised e, db') = (raised e, db)

abbrev pub transaction : {A : Type 0} → M A → M A
transaction m db = commit db (m db)

-- `newId()`
abbrev pub new_id : M ℕ
new_id db = (done (db.ids db.issued), record db { issued = suc db.issued })

abbrev pub send : Message → M (Unit {0})
send m = modify λ db. record db { outbox = db.outbox ++ m ∷ [] }

-- A handler followed by a constant answer, and one that is known to answer.
pub continue-pure : {A B : Type 0} (x : Reply A × Db) (b : B) → (continue x (λ a. pure b)).1 ≡ x.1
continue-pure (done a, db) b = refl
continue-pure (raised e, db) b = refl

pub continue-done :
    {A B : Type 0} (x : Reply A × Db) (a : A) (f : A → Db → Reply B × Db)
    → x.0 ≡ done a
    → continue x f ≡ f a x.1
continue-done (done b, db) a f e = let same : b ≡ a = cc e in rw same refl
continue-done (raised b, db) a f e = absurd (cc e)
