-- ===== src/Notifications/Routing/Decisions.antt =====
-- When an alert reaches a channel.
use phone_control.Common.{
  ℕ, suc, ◌+◌, ◌-◌, ◌%◌, ◌<◌, ◌≡◌, ◌∙◌, ◌↔◌, ap, refl, Bool, true, false, not, ◌&&◌, ◌||◌, List, [],
  ◌∷◌, Option, none, some, arith, Option-cases, Bool-cases, inl, inr, ltb, leb, get_or, is_some,
  if◌then◌else◌, length, any, map, keep,
}
use phone_control.Store.Enums.{Severity, AlertType}
use phone_control.Rules.Clock.{minutes}
use phone_control.Rules.Clock.Exactness.{IsTime}
use phone_control.Rules.Schedule.{Calendar}
use phone_control.Notifications.Routing.{
  ChannelFilters, WebhookConfig, EmailConfig, QuietHours, NotificationConfig, RoutableAlert, Target,
  RoutingDecision, SuppressionReason, is_quiet_hour, accepts, place, nothing, route_channels,
  route_alert, is_critical, is_quiet, same_type, has_channel, webhook_target, email_target,
  default_max_per_hour, severity_rank,
}

-- Counted round the clock from the start of the quiet hours, the moment comes before their end.
pub is_quiet_hour_iff :
    (c : Calendar) (q : QuietHours) (at : ℕ)
    → c.zone_valid q.timezone ≡ true
    → IsTime q.start
    → IsTime q.end
    → IsTime (c.local q.timezone at).time
    → (is_quiet_hour c q at ≡ true) ↔ (
        (minutes (c.local q.timezone at).time + 1440 - minutes q.start) % 1440
        < (minutes q.end + 1440 - minutes q.start) % 1440)
unfolding is_quiet_hour
is_quiet_hour_iff c q at valid h k l = ground arith

-- The channels of a company in the order of their configuration: the webhooks, then the mail.
abbrev pub Channel : Type 0
Channel = ChannelFilters × Target

abbrev pub mail_channels : Option EmailConfig → List Channel
mail_channels none = []
mail_channels (some e) = (e.filters, email_target e) ∷ []

abbrev pub channels_from : ℕ → List WebhookConfig → Option EmailConfig → List Channel
channels_from index [] mail = mail_channels mail
channels_from index (w ∷ ws) mail =
    (w.filters, webhook_target index w) ∷ channels_from (suc index) ws mail

abbrev pub channels : NotificationConfig → List Channel
channels config = channels_from 0 config.webhooks config.email

abbrev pub is_selected : Option (List AlertType) → AlertType → Bool
is_selected none type = true
is_selected (some []) type = true
is_selected (some (t ∷ ts)) type = any (same_type type) (t ∷ ts)

abbrev pub takes : RoutableAlert → Channel → Bool
takes alert ch =
    leb (severity_rank (get_or ch.0.min_severity Severity.high)) (severity_rank alert.severity)
    && is_selected ch.0.types alert.type

abbrev pub targets_of : List Channel → List Target
targets_of = map (λ ch. ch.1)

-- The two guards that a critical alert passes.
abbrev pub is_held : Calendar → RoutableAlert → NotificationConfig → (now sent : ℕ) → Bool
is_held c alert config now sent =
    not (is_critical alert.severity)
    && (is_quiet c config.quiet_hours now
        || leb (get_or config.max_per_hour default_max_per_hour) sent)

takes_eq :
    (alert : RoutableAlert) (ch : Channel) → takes alert ch ≡ not (is_some (accepts alert ch.0))
unfolding accepts
takes_eq alert ch = elim (Option-cases ch.0.types) [
  | inl every ↦ rw every (ground arith)
  | inr ([], every) ↦ rw every (ground arith)
  | inr (t ∷ ts, some_only) ↦ rw some_only (ground arith)
]

place-targets :
    (alert : RoutableAlert) (ch : Channel) (rest : RoutingDecision)
    → (place (accepts alert ch.0) ch.1 rest).targets
      ≡ (if takes alert ch then ch.1 ∷ rest.targets else rest.targets)
place-targets alert ch rest = elim (Option-cases (accepts alert ch.0)) [
  | inl free ↦ rw (takes_eq alert ch, free) refl
  | inr (reason, refused) ↦ rw (takes_eq alert ch, refused) refl
]

targets_of_if :
    (b : Bool) (ch : Channel) (rest : List Channel)
    → (if b then ch.1 ∷ targets_of rest else targets_of rest)
      ≡ targets_of (if b then ch ∷ rest else rest)
targets_of_if true ch rest = refl
targets_of_if false ch rest = refl

route_channels-targets :
    (alert : RoutableAlert) (index : ℕ) (ws : List WebhookConfig) (mail : Option EmailConfig)
    → (route_channels alert index ws mail).targets
      ≡ targets_of (keep (takes alert) (channels_from index ws mail))
unfolding route_channels
route_channels-targets alert index [] none = refl
route_channels-targets alert index [] (some e) =
    place-targets alert (e.filters, email_target e) nothing
    ∙ targets_of_if (takes alert (e.filters, email_target e)) (e.filters, email_target e) []
route_channels-targets alert index (w ∷ ws) mail =
    place-targets alert (w.filters, webhook_target index w)
      (route_channels alert (suc index) ws mail)
    ∙ ap
        (λ r.
          if takes alert (w.filters, webhook_target index w) then webhook_target index w ∷ r else r)
        (route_channels-targets alert (suc index) ws mail)
    ∙ targets_of_if (takes alert (w.filters, webhook_target index w))
        (w.filters, webhook_target index w) _

held_targets :
    (c : Calendar) (alert : RoutableAlert) (config : NotificationConfig) (now sent : ℕ)
    → has_channel config ≡ true
    → (route_alert c alert (some config) now sent).targets ≡ (
        if is_held c alert config now sent
        then []
        else (route_channels alert 0 config.webhooks config.email).targets)
unfolding route_alert
held_targets c alert config now sent h = elim (Bool-cases (is_critical alert.severity)) [
  | inl critical ↦ rw (h, critical) refl
  | inr mild ↦ elim (Bool-cases (is_quiet c config.quiet_hours now)) [
    | inl quiet ↦ rw (h, mild, quiet) refl
    | inr loud ↦ elim (Bool-cases (leb (get_or config.max_per_hour default_max_per_hour) sent)) [
      | inl many ↦ rw (h, mild, loud) (rw many refl)
      | inr few ↦ rw (h, mild, loud) (rw few refl)
    ]
  ]
]

no_channels :
    (ws : List WebhookConfig) (mail : Option EmailConfig)
    → (ltb 0 (length ws) || is_some mail) ≡ false
    → channels_from 0 ws mail ≡ []
no_channels [] none h = refl
no_channels [] (some e) h = ground arith
no_channels (w ∷ ws) mail h = ground arith

no_targets : (b : Bool) → [] ≡ (if b then [] else targets_of [])
no_targets true = refl
no_targets false = refl

-- An alert reaches the channels that take its severity and its type, in their order, and none of
-- them if it is held: a critical alert never is, another one is in quiet hours and at the ceiling.
pub route_alert-targets :
    (c : Calendar) (alert : RoutableAlert) (config : NotificationConfig) (now sent : ℕ)
    → (route_alert c alert (some config) now sent).targets ≡ (
        if is_held c alert config now sent
        then []
        else targets_of (keep (takes alert) (channels config)))
unfolding route_alert
route_alert-targets c alert config now sent = elim (Bool-cases (has_channel config)) [
  | inl reachable ↦
      held_targets c alert config now sent reachable
      ∙ ap (λ ts. if is_held c alert config now sent then [] else ts)
          (route_channels-targets alert 0 config.webhooks config.email)
  | inr unreachable ↦
      rw (unreachable, no_channels config.webhooks config.email unreachable)
        (no_targets (is_held c alert config now sent))
]

abbrev pub outcomes : RoutingDecision → ℕ
outcomes d = length d.targets + length d.suppressed

place_one :
    (refusal : Option SuppressionReason) (t : Target) (rest : RoutingDecision)
    → outcomes (place refusal t rest) ≡ suc (outcomes rest)
place_one none t rest = omega arith
place_one (some reason) t rest = omega arith

route_channels_all :
    (alert : RoutableAlert) (index : ℕ) (ws : List WebhookConfig) (mail : Option EmailConfig)
    → outcomes (route_channels alert index ws mail) ≡ length (channels_from index ws mail)
unfolding route_channels
route_channels_all alert index [] none = refl
route_channels_all alert index [] (some e) =
    place_one (accepts alert e.filters) (email_target e) nothing
route_channels_all alert index (w ∷ ws) mail =
    place_one (accepts alert w.filters) (webhook_target index w)
      (route_channels alert (suc index) ws mail)
    ∙ ap suc (route_channels_all alert (suc index) ws mail)

-- No channel is passed over in silence: an alert that is not held is sent to or withheld from each
-- channel of the company once, and one that is held, or finds no channel, is reported once.
pub outcomes-route_alert :
    (c : Calendar) (alert : RoutableAlert) (config : NotificationConfig) (now sent : ℕ)
    → outcomes (route_alert c alert (some config) now sent) ≡ (
        if has_channel config && not (is_held c alert config now sent)
        then length (channels config)
        else 1)
unfolding route_alert
outcomes-route_alert c alert config now sent = elim (Bool-cases (has_channel config)) [
  | inr unreachable ↦ rw unreachable refl
  | inl reachable ↦ elim (Bool-cases (is_critical alert.severity)) [
    | inl critical ↦
        rw (reachable, critical) (route_channels_all alert 0 config.webhooks config.email)
    | inr mild ↦ elim (Bool-cases (is_quiet c config.quiet_hours now)) [
      | inl quiet ↦ rw (reachable, mild, quiet) refl
      | inr loud ↦ elim (Bool-cases (leb (get_or config.max_per_hour default_max_per_hour) sent)) [
        | inl many ↦ rw (reachable, mild, loud) (rw many refl)
        | inr few ↦
            rw (reachable, mild, loud)
              (rw few (route_channels_all alert 0 config.webhooks config.email))
      ]
    ]
  ]
]
