-- ===== src/Notifications/Routing.antt =====
-- apps/api/src/notifications/routing.ts: who is told of an alert. A label that the code makes from
-- a template is a constructor; the recipients of a mail are kept as a list.
pub mod Decisions
use phone_control.Common.{
  ℕ, suc, ◌+◌, ◌*◌, Bool, true, false, not, ◌&&◌, ◌||◌, List, [], ◌∷◌, Option, none, some, ltb, leb,
  get_or, is_some, if◌then◌else◌, any, length,
}
use phone_control.Store.Enums.{Severity, AlertType}
use phone_control.Rules.Clock.{Text, LocalTime, minutes}
use phone_control.Rules.Schedule.{Calendar, Local}

abbrev pub severity_rank : Severity → ℕ
severity_rank Severity.low = 0
severity_rank Severity.medium = 1
severity_rank Severity.high = 2
severity_rank Severity.critical = 3

abbrev pub is_critical : Severity → Bool
is_critical Severity.critical = true
is_critical _ = false

-- `===` on the alert types
unfoldable pub same_type : AlertType → AlertType → Bool
same_type AlertType.after_return_exit AlertType.after_return_exit = true
same_type AlertType.unknown_badge AlertType.unknown_badge = true
same_type AlertType.unauthorized_user AlertType.unauthorized_user = true
same_type AlertType.device_offline AlertType.device_offline = true
same_type AlertType.location_disabled AlertType.location_disabled = true
same_type AlertType.security_event AlertType.security_event = true
same_type AlertType.device_tampering AlertType.device_tampering = true
same_type AlertType.battery_low AlertType.battery_low = true
same_type AlertType.not_returned AlertType.not_returned = true
same_type AlertType.lock_failed AlertType.lock_failed = true
same_type _ _ = false

pub record ChannelFilters : Type 0 where
  pub min_severity : Option Severity
  pub types : Option (List AlertType)

pub record WebhookConfig : Type 0 where
  pub filters : ChannelFilters
  pub url : Text
  pub label : Option Text

pub record EmailConfig : Type 0 where
  pub filters : ChannelFilters
  pub recipients : List Text

-- The hours are read already: the schema lets no other text than HH:MM through.
pub record QuietHours : Type 0 where
  pub start : LocalTime
  pub end : LocalTime
  pub timezone : Text

-- An absent list of webhooks is the empty one.
pub record NotificationConfig : Type 0 where
  pub webhooks : List WebhookConfig
  pub email : Option EmailConfig
  pub quiet_hours : Option QuietHours
  pub max_per_hour : Option ℕ

abbrev pub default_min_severity : Severity
default_min_severity = Severity.high

abbrev pub default_max_per_hour : ℕ
default_max_per_hour = 20

pub record RoutableAlert : Type 0 where
  pub type : AlertType
  pub severity : Severity

pub data SuppressionReason : Type 0 where
  below_threshold type_not_selected quiet_hours rate_limited not_configured : SuppressionReason

pub data Label : Type 0 where
  no_channel all_channels : Label
  named : Text → Label
  webhook_number email_recipients : ℕ → Label

-- The channel with its destination.
pub data Destination : Type 0 where
  webhook : Text → Destination
  email : List Text → Destination

pub record Target : Type 0 where
  pub destination : Destination
  pub label : Label

pub record RoutingDecision : Type 0 where
  pub targets : List Target
  pub suppressed : List (Label × SuppressionReason)

-- `isQuietHour`, with Luxon as the calendar; an unknown zone is never quiet.
unfoldable pub is_quiet_hour : Calendar → QuietHours → ℕ → Bool
is_quiet_hour c q at =
    if not (c.zone_valid q.timezone)
    then false
    else let now = minutes (c.local q.timezone at).time in
      if leb (minutes q.start) (minutes q.end)
      then leb (minutes q.start) now && ltb now (minutes q.end)
      else leb (minutes q.start) now || ltb now (minutes q.end)

-- `types?.length && !types.includes(type)`
is_excluded : Option (List AlertType) → AlertType → Bool
unfolding same_type
is_excluded none type = false
is_excluded (some types) type = ltb 0 (length types) && not (any (same_type type) types)

-- `accepts`: why a channel does not take the alert.
unfoldable pub accepts : RoutableAlert → ChannelFilters → Option SuppressionReason
unfolding is_excluded
accepts alert f =
    if ltb (severity_rank alert.severity)
      (severity_rank (get_or f.min_severity default_min_severity))
    then some SuppressionReason.below_threshold
    else if is_excluded f.types alert.type
    then some SuppressionReason.type_not_selected
    else none

abbrev pub webhook_label : ℕ → WebhookConfig → Label
webhook_label index w = elim w.label [ none ↦ webhook_number (index + 1) | some text ↦ named text ]

-- One turn of a loop over the channels.
abbrev pub place : Option SuppressionReason → Target → RoutingDecision → RoutingDecision
place none target rest = record rest { targets = target ∷ rest.targets }
place (some reason) target rest = record rest {
  suppressed = (target.label, reason) ∷ rest.suppressed;
}

abbrev pub nothing : RoutingDecision
nothing = record { targets = []; suppressed = [] }

abbrev pub email_target : EmailConfig → Target
email_target e = record {
  destination = email e.recipients;
  label = email_recipients (length e.recipients);
}

abbrev pub webhook_target : ℕ → WebhookConfig → Target
webhook_target index w = record { destination = webhook w.url; label = webhook_label index w }

abbrev pub route_email : RoutableAlert → Option EmailConfig → RoutingDecision
route_email alert none = nothing
route_email alert (some e) = place (accepts alert e.filters) (email_target e) nothing

-- The webhooks from the number `index` on, then the mail.
route_channels : RoutableAlert → ℕ → List WebhookConfig → Option EmailConfig → RoutingDecision
route_channels alert index [] mail = route_email alert mail
route_channels alert index (w ∷ ws) mail =
    place (accepts alert w.filters) (webhook_target index w)
      (route_channels alert (suc index) ws mail)

abbrev pub all_suppressed : Label → SuppressionReason → RoutingDecision
all_suppressed label reason = record { targets = []; suppressed = (label, reason) ∷ [] }

abbrev pub is_quiet : Calendar → Option QuietHours → ℕ → Bool
is_quiet c none now = false
is_quiet c (some q) now = is_quiet_hour c q now

abbrev pub has_channel : NotificationConfig → Bool
has_channel config = ltb 0 (length config.webhooks) || is_some config.email

unfoldable pub route_alert :
    Calendar
    → RoutableAlert
    → Option NotificationConfig
    → (now sent_in_last_hour : ℕ) → RoutingDecision
unfolding route_channels
route_alert c alert none now sent = all_suppressed no_channel SuppressionReason.not_configured
route_alert c alert (some config) now sent =
    if not (has_channel config)
    then all_suppressed no_channel SuppressionReason.not_configured
    else if not (is_critical alert.severity) && is_quiet c config.quiet_hours now
    then all_suppressed all_channels SuppressionReason.quiet_hours
    else if not (is_critical alert.severity)
        && leb (get_or config.max_per_hour default_max_per_hour) sent
    then all_suppressed all_channels SuppressionReason.rate_limited
    else route_channels alert 0 config.webhooks config.email
