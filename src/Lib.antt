-- ===== src/Lib.antt =====
-- Verification library of Phone Control, the server that manages the phones of a fleet: a driver
-- opens a session on a phone with a badge, the phone reports positions and events, and the server
-- applies the hours of the depot, raises alerts, queues commands for the phone, notifies people and
-- relays a screen that its driver agreed to share.
--
-- The parts and how they interact:
--   * Rules (apps/api/src/rules) is pure. Clock and Schedule model schedule.ts: `parse_time`,
--     `operational_day_of`, `resolve_day_rules`, `instant_for_local_time`, `next_lock_instant`;
--     Geofence models geofence-rules.ts and asks Schedule for the hour of return.
--   * Store holds the rows (apps/api/prisma/schema.prisma), the keys of deduplication and
--     idempotency, the database `Db` with the messages that leave, and the monad `M` of a handler.
--   * Alerts (apps/api/src/alerts/alerts.service.ts), Commands
--     (apps/api/src/devices/commands.service.ts) and Sessions
--     (apps/api/src/sessions/sessions.service.ts) have a function for each method, in `M`:
--     `raise`, `resolve`; `enqueue`, `pull_pending`, `report_result`; `end`, `expire_overdue`.
--   * ScreenShare.Rules (apps/api/src/screen-share/rules.ts) is the state machine of a sharing
--     session, ScreenShare.Service (screen-share.service.ts) its handlers, which queue a command
--     through Commands.
--   * Notifications.Routing (apps/api/src/notifications/routing.ts) decides who is told of an
--     alert, Notifications.Service (notifications.service.ts) delivers and counts.
--   * Sync (apps/api/src/sync/sync.service.ts) takes a batch of events of a phone: `push` sorts them
--     and hands each to `handle_geofence`, `handle_security`, `handle_offline_scan` or
--     `insert_locations`, which ask Rules for a decision and call Alerts, Commands and Sessions.
--   * Worker (apps/api/src/worker/lock-scheduler.job.ts) is the job of every minute: `run` goes through
--     the depots (`handle_depot`), asks Rules for the lock instant, queues the locks through Commands,
--     raises alerts, and ends overdue sessions through Sessions.
--   * Maintenance (apps/api/src/worker/maintenance.job.ts) is the daily deletion: `apply_retention` on
--     the positions, by partition and in batches, and on the events.
--   * Health is what phones say of themselves, or do not: `heartbeat`
--     (apps/api/src/devices/devices.service.ts) raises and closes alerts on battery and location, `monitor`
--     (apps/api/src/worker/health-monitor.job.ts) those of phones that are silent.
--   * Csv (tools/provisioning/src/lib/csv.ts) cuts the file of a fleet into lines of fields, for the
--     tool that prepares phones.
--   * Settings (apps/api/src/settings/settings.service.ts) resolves the settings of a phone or a company
--     from the rows of the table; the other parts take the values they need as arguments.
--   * Login (apps/api/src/auth/barcode-auth.service.ts) opens a session for a badge: Steps has
--     `authenticate` with a definition for each check, in `Exec`, the monad of a handler that also
--     talks to Redis. It counts with Limiter (apps/api/src/redis/rate-limiter.service.ts) and describes
--     the barcode with BadgeHash (apps/api/src/crypto/badge-hash.service.ts).
--   * AdminAuth (apps/api/src/auth/admin-auth.service.ts) is the `login` of an administrator with a
--     password, on tables of its own (`Directory`).
--   * Devices is the life of a phone: Tokens (apps/api/src/auth/device-token.service.ts) issues and
--     rotates its tokens, Enrollment (apps/api/src/devices/enrollment.service.ts) enrols and revokes
--     it, which Login and Access then read.
--   * Access (apps/api/src/auth/access.guard.ts) is the guard in front of every route: `can_activate`
--     authenticates the caller and fills the context that Tenant reads.
--   * Tenant (apps/api/src/prisma/tenant-extension.ts) is the filter of the companies between the
--     services and the database.
--   * Common has Boolean tests, lists, a stable sort and rows with distinct identifiers; Examples
--     has a small fleet on which the properties are applied.
--
-- How the state is modelled: a table is a list of rows, the newest last; a query of Prisma is the
-- list function of the same meaning, and a unique index is what the insertion checks. Where the
-- code reads and then writes, `raise_amid`, `enqueue_amid` and `refresh_amid` let any other requests write in
-- between. One call of a handler has one time `now`; a run of the worker has one `now` and one
-- `clock` for the queue. Identifiers are numbers from a supply, instants are milliseconds, a date is
-- a day number.
-- In Tenant, Prisma itself is a parameter with its documented behaviour as laws. Luxon, the server
-- of Redis, HMAC, JWT, the configuration of a company and the delivery channels are parameters too.
--
-- Loops are over lists, or over the horizon of `next_lock_instant`, which the code bounds as well;
-- and only the deletion in batches (`purge_batches`) has fuel, one more than the rows of the table,
-- which is enough since each batch but the last deletes a row.
--
-- The time of an event of a phone is the instant that `new Date` reads from its text; a text that is
-- ISO 8601 and that `new Date` cannot read, such as a week date, is not modelled. The table of
-- positions refuses a battery level that its column does not hold, and with it the whole statement.
--
-- Not modelled: the answer to a phone that pulls (`SyncService.pull`), the leader lock of
-- apps/api/src/worker, single sign-on and the rotation of the tokens of administrators
-- (apps/api/src/auth/admin-auth.service.ts), the master data, network output, the dashboard, the
-- Android client and the other tools. Texts for people, JSON values and floating-point geometry are
-- left out everywhere.
pub mod Common
pub mod Rules
pub mod Store
pub mod Access
pub mod Alerts
pub mod Commands
pub mod Sessions
pub mod ScreenShare
pub mod Notifications
pub mod Tenant
pub mod Sync
pub mod Worker
pub mod Settings
pub mod Devices
pub mod Maintenance
pub mod Health
pub mod Csv
pub mod Limiter
pub mod BadgeHash
pub mod Login
pub mod AdminAuth
pub mod Examples
