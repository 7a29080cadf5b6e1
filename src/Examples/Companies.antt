-- ===== src/Examples/Companies.antt =====
-- Notifications, and the filter of the companies.
use phone_control.Common.{
  ◌≡◌, ◌≤◌, inl, inr, refl, sym, true, [], ◌∷◌, none, some, arith, keep, All, if◌then◌else◌, ◌==◌,
  ==_iff, ◌∙◌,
}
use phone_control.Common.Ids.{Within, DistinctIds-eq}
use phone_control.Store.Enums.{Severity, AlertType}
use phone_control.Store.{Alert, Db}
use phone_control.Notifications.Routing.{
  ChannelFilters, QuietHours, NotificationConfig, RoutableAlert, route_alert,
}
use phone_control.Notifications.Routing.Decisions.{
  is_held, takes, channels, targets_of, route_alert-targets,
}
use phone_control.Notifications.Service.{sent_in_last_hour, dispatch}
use phone_control.Notifications.Service.Ceiling.{dispatch_ceiling}
use phone_control.Alerts.{new_alert}
use phone_control.Tenant.{
  Model, Operation, Row, Args, tenant_of, tenant_query, scoped, is_tenant_model,
}
use phone_control.Tenant.Foreign.{scope, is_foreign}
use phone_control.Tenant.Isolation.{IsUnique, tenant_query_writes, tenant_query_reads}
use phone_control.Tenant.Escapes.{tenant_query_escapes}
use phone_control.Examples.{db, input, utc}
use phone_control.Examples.Memory.{memory, memory-Documented, rows, wiped, by_id}

-- From 22:00 to 06:00.
abbrev night : QuietHours
night = record {
  start = record { hour = 22; minute = 0 };
  end = record { hour = 6; minute = 0 };
  timezone = [];
}

abbrev all_alerts : ChannelFilters
all_alerts = record { min_severity = some Severity.low; types = none }

abbrev config : NotificationConfig
config = record {
  webhooks = record { filters = all_alerts; url = []; label = none } ∷ [];
  email = none;
  quiet_hours = some night;
  max_per_hour = some 3;
}

abbrev night_alert : RoutableAlert
night_alert = record { type = AlertType.not_returned; severity = Severity.high }

route_alert-targets_example : (route_alert utc night_alert (some config) 36000000 1).targets ≡ (
    if is_held utc night_alert config 36000000 1
    then []
    else targets_of (keep (takes night_alert) (channels config)))
route_alert-targets_example = route_alert-targets utc night_alert config 36000000 1

abbrev alarm : Alert
alarm = new_alert input 9

abbrev alarm_db : Db
alarm_db = record db { alerts = alarm ∷ [] }

dispatch_ceiling_example :
    sent_in_last_hour 1 36000000
      (dispatch utc (λ company. some config) (λ t. true) (λ t. true) alarm 36000000 alarm_db).1
    ≤ 3
dispatch_ceiling_example =
    dispatch_ceiling utc (λ company. some config) (λ t. true) (λ t. true) alarm config 36000000
      alarm_db refl refl (tt, tt) (omega arith)

by_id-IsUnique : IsUnique by_id rows
by_id-IsUnique x y w v h k =
    DistinctIds-eq (λ r. r.id) rows x y ((refl, tt), (tt, tt)) w v
      ((==_iff x.id 1).0 h ∙ sym ((==_iff y.id 1).0 k))

wiped-tenant : (m : Model) (r : Row) → tenant_of m (wiped r) ≡ tenant_of m r
wiped-tenant Model.company r = refl
wiped-tenant _ r = refl

tenant_query_writes_example :
    keep
      (is_foreign Model.device 20)
      (tenant_query memory (scope 20) Model.device Operation.update by_id rows).1
    ≡ keep (is_foreign Model.device 20) rows
unfolding is_tenant_model
tenant_query_writes_example =
    tenant_query_writes memory Model.device Operation.update 20 by_id rows memory-Documented refl
      (λ e. cc e) (wiped-tenant Model.device) by_id-IsUnique

-- The first company asks for its phone.
tenant_query_reads_example :
    All
      (λ r. Within r rows × ((r.id == 1) ≡ true) × (r.company_id ≡ 10))
      (record { id = 1; company_id = 10; content = 0 } ∷ [])
unfolding is_tenant_model tenant_query scoped
tenant_query_reads_example =
    tenant_query_reads memory Model.device Operation.find_unique 10 by_id rows _ memory-Documented
      refl (inr refl) refl

-- The rule of company 20, which its key alone names, is asked for by company 10.
abbrev by_key : Args
by_key = record {
  filter = record { tenant = some 20; rest = λ r. true };
  new_rows = [];
  change = wiped;
}

tenant_query_escapes_example :
    tenant_query memory (scope 10) Model.retention_policy Operation.update by_key rows
    ≡ memory Model.retention_policy Operation.update by_key rows
unfolding is_tenant_model
tenant_query_escapes_example =
    tenant_query_escapes memory Model.retention_policy Operation.update 10 by_key rows
      (record { id = 1; company_id = 10; content = 0 }) memory-Documented refl refl (inl refl) refl
      refl
