-- ===== src/Server/Monitors/Creation.antt =====
-- backend/server/monitor.go: the validation of a new monitor.
pub mod Laws
use mathlib.Core.Path.{subst}
use text.Mathlib.Text.{◌==◌ as str_eq}
use ping.Prelude.{
  ℕ, ◌≡◌, refl, sym, ap, ◌∙◌, inl, inr, ◌⊎◌, String, Bool, true, false, not, ◌||◌, Option, none,
  some, is_some, Bool-cases, if◌then◌else◌, arith,
}
use ping.Schedule.{Config, Zones, Instant, ValidationError, validate}
use ping.Schedule.Laws.{validate_iff}
use ping.Schedule.Text.{is_empty}
use ping.Db.{Monitor, heartbeat, http}
use ping.Db.Edits.{created_row}
use ping.Store.Checkin.{
  text_or_null, seconds_or_zero, kind_or_empty, string_or_empty, schedule_config,
}
use ping.Store.Monitors.{CreateMonitorParams, insert_params}
use ping.Server.Monitors.{
  ScheduleFields, HttpFields, FieldError, field_error, Checked, accepted, refused, Formats,
  schedule_refusal, accept_unless, validate_http_fields, is_set_outside, min_interval_s,
  max_interval_s, min_timeout_s, max_timeout_s,
}

pub record CreateMonitorRequest : Type 0 where
  pub kind : String
  pub name : String
  pub auto_resume : Option Bool
  pub schedule : ScheduleFields
  pub probe : HttpFields

unfoldable pub schedule_config_from_fields : ScheduleFields → Config
schedule_config_from_fields f = record {
  kind = kind_or_empty f.schedule_kind;
  period = seconds_or_zero f.period_s;
  cron_expr = f.cron_expr;
  tz = f.tz;
  grace = seconds_or_zero f.grace_s;
}

-- The owner is set by the handler, after the validation.
abbrev pub heartbeat_params : ℕ → CreateMonitorRequest → CreateMonitorParams
heartbeat_params user req = record {
  user_id = user;
  kind = heartbeat;
  name = req.name;
  schedule_kind = req.schedule.schedule_kind;
  period_s = req.schedule.period_s;
  cron_expr = req.schedule.cron_expr;
  tz = req.schedule.tz;
  grace_s = req.schedule.grace_s;
  url = "";
  method = "";
  interval_s = none;
  timeout_s = none;
  fail_threshold = none;
  http_config = none;
  auto_resume = req.auto_resume;
}

abbrev pub http_params : ℕ → CreateMonitorRequest → CreateMonitorParams
http_params user req = record {
  user_id = user;
  kind = http;
  name = req.name;
  schedule_kind = none;
  period_s = none;
  cron_expr = "";
  tz = "";
  grace_s = none;
  url = req.probe.url;
  method = req.probe.method;
  interval_s = req.probe.interval_s;
  timeout_s = req.probe.timeout_s;
  fail_threshold = req.probe.fail_threshold;
  http_config = req.probe.http_config;
  auto_resume = req.auto_resume;
}

abbrev pub refuse_if {ℓ} : {A : Type ℓ} → Bool → A → Option A → Option A
refuse_if b e none = if b then some e else none
refuse_if b e (some first) = some first

module _ (z : Zones) (formats : Formats) (user : ℕ) where
  abbrev pub heartbeat_refusal : CreateMonitorRequest → Option FieldError
  heartbeat_refusal req =
      refuse_if (not (is_empty req.probe.url) || not (is_empty req.probe.method))
        (field_error "url" "must be empty for a heartbeat monitor")
        (schedule_refusal (validate z (schedule_config_from_fields req.schedule)))

  abbrev pub http_refusal : CreateMonitorRequest → Option FieldError
  http_refusal req =
      refuse_if (is_some req.schedule.schedule_kind || not (is_empty req.schedule.cron_expr))
        (field_error "schedule_kind" "must be empty for an http monitor")
        (validate_http_fields formats req.probe)

  unfoldable pub validate_create : CreateMonitorRequest → Checked CreateMonitorParams
  validate_create req =
      if is_empty req.name
      then refused (field_error "name" "name is required")
      else if str_eq req.kind "heartbeat"
      then accept_unless (heartbeat_refusal req) (heartbeat_params user req)
      else if str_eq req.kind "http"
      then accept_unless (http_refusal req) (http_params user req)
      else refused (field_error "kind" "must be \"heartbeat\" or \"http\"")
