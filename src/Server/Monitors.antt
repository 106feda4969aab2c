-- ===== src/Server/Monitors.antt =====
-- backend/server/monitor.go: the fields of a request and the validation of a PATCH. url.Parse with
-- its scheme and json.Valid are the parameter `Formats`.
pub mod Rows
pub mod Laws
pub mod Creation
pub mod Handlers
mod Examples
use text.Mathlib.Text.{◌==◌ as str_eq}
use ping.Prelude.{
  ℕ, ◌*◌, String, Bool, true, false, not, ◌&&◌, ◌||◌, Option, none, some, is_some, is_none,
  if◌then◌else◌,
}
use ping.Prelude.Int.{ℤ, pos, ltb_ℤ}
use ping.Schedule.{Config, Kind, Zones, Duration, ValidationError, Message, validate}
use ping.Schedule.Text.{is_empty}
use ping.Db.{Monitor, MonitorKind, heartbeat, http}
use ping.Store.{Op, pure, ◌>>=◌, ◌>>◌}
use ping.Store.Checkin.{seconds_or_zero, schedule_config}
use ping.Store.Monitors
use ping.Store.Monitors.{CreateMonitorParams, UpdateMonitorParams, get_monitor}

pub record ScheduleFields : Type 0 where
  pub schedule_kind : Option Kind
  pub period_s : Option ℤ
  pub cron_expr : String
  pub tz : String
  pub grace_s : Option ℤ

pub record HttpFields : Type 0 where
  pub url : String
  pub method : String
  pub interval_s : Option ℤ
  pub timeout_s : Option ℤ
  pub fail_threshold : Option ℤ
  pub http_config : Option String

pub record UpdateMonitorRequest : Type 0 where
  pub name : Option String
  pub auto_resume : Option Bool
  pub schedule : ScheduleFields
  pub probe : HttpFields

-- A field that is refused, with the text of its message, or the error of the schedule.
pub data FieldError : Type 0 where
  field_error : String → String → FieldError
  schedule_error : ValidationError → FieldError

pub data Checked (A : Type 0) : Type 0 where
  accepted : A → Checked A
  refused : FieldError → Checked A

-- What url.Parse and json.Valid say: whether a text is a URL with the scheme http or https, and
-- whether it is JSON.
pub record Formats : Type 0 where
  pub is_http_url : String → Bool
  pub is_json : String → Bool

abbrev pub min_interval_s : ℤ
min_interval_s = pos 30

abbrev pub max_interval_s : ℤ
max_interval_s = pos (24 * 60 * 60)

abbrev pub min_timeout_s : ℤ
min_timeout_s = pos 1

abbrev pub max_timeout_s : ℤ
max_timeout_s = pos 30

abbrev pub is_set_outside : ℤ → ℤ → Option ℤ → Bool
is_set_outside lo hi none = false
is_set_outside lo hi (some v) = ltb_ℤ v lo || ltb_ℤ hi v

abbrev pub is_bad_json : Formats → Option String → Bool
is_bad_json formats none = false
is_bad_json formats (some t) = not (formats.is_json t)

unfoldable pub validate_http_fields : Formats → HttpFields → Option FieldError
validate_http_fields formats f =
    if is_empty f.url
    then some (field_error "url" "url is required")
    else if not (formats.is_http_url f.url)
    then some (field_error "url" "must be a valid http or https URL")
    else if not (is_empty f.method) && not (str_eq f.method "GET") && not (str_eq f.method "HEAD")
    then some (field_error "method" "must be \"GET\" or \"HEAD\"")
    else if is_set_outside min_interval_s max_interval_s f.interval_s
    then some (field_error "interval_s" "must be between 30 and 86400 seconds")
    else if is_set_outside min_timeout_s max_timeout_s f.timeout_s
    then some (field_error "timeout_s" "must be between 1 and 30 seconds")
    else if is_bad_json formats f.http_config
    then some (field_error "http_config" "must be valid JSON")
    else none

abbrev pub or_kind : Option Kind → Kind → Kind
or_kind none k = k
or_kind (some k) old = k

abbrev pub or_text : String → String → String
or_text s old = if is_empty s then old else s

abbrev pub or_seconds : Option ℤ → Duration → Duration
or_seconds none d = d
or_seconds (some s) d = seconds_or_zero (some s)

abbrev pub with_period : Option ℤ → Config → Config
with_period none cfg = cfg
with_period (some s) cfg = record cfg { period = seconds_or_zero (some s); cron_expr = "" }

abbrev pub with_cron : String → Config → Config
with_cron expr cfg = if is_empty expr then cfg else record cfg { cron_expr = expr; period = pos 0 }

-- The schedule of the stored monitor with the fields of the request.
unfoldable pub merge_schedule_config : Monitor → ScheduleFields → Config
unfolding schedule_config
merge_schedule_config existing f =
    let old = schedule_config existing in
    let cfg =
      with_cron f.cron_expr
        (with_period f.period_s (record old { kind = or_kind f.schedule_kind old.kind })) in
    record cfg { tz = or_text f.tz cfg.tz; grace = or_seconds f.grace_s cfg.grace }

abbrev or_value : {A : Type 0} → Option A → Option A → Option A
or_value none old = old
or_value (some a) old = some a

abbrev pub text_of : Option String → String
text_of none = ""
text_of (some s) = s

unfoldable pub merge_http_fields : Monitor → HttpFields → HttpFields
merge_http_fields existing f = record {
  url = or_text f.url (text_of existing.url);
  method = or_text f.method (text_of existing.method);
  interval_s = or_value f.interval_s existing.interval_s;
  timeout_s = or_value f.timeout_s existing.timeout_s;
  fail_threshold = or_value f.fail_threshold existing.fail_threshold;
  http_config = or_value f.http_config (some existing.http_config);
}

abbrev pub sets_schedule : ScheduleFields → Bool
sets_schedule f =
    is_some f.schedule_kind
    || is_some f.period_s
    || not (is_empty f.cron_expr)
    || not (is_empty f.tz)
    || is_some f.grace_s

abbrev pub sets_probe : HttpFields → Bool
sets_probe f =
    not (is_empty f.url)
    || not (is_empty f.method)
    || is_some f.interval_s
    || is_some f.timeout_s
    || is_some f.fail_threshold
    || is_some f.http_config

-- The parameters of an update that names no field of the schedule or of the probe.
abbrev pub common_params : UpdateMonitorRequest → UpdateMonitorParams
common_params req = record {
  name = text_of req.name;
  schedule_kind = none;
  period_s = none;
  cron_expr = "";
  tz = "";
  grace_s = none;
  url = "";
  method = "";
  interval_s = none;
  timeout_s = none;
  fail_threshold = none;
  http_config = none;
  auto_resume = req.auto_resume;
}

abbrev pub schedule_params : ScheduleFields → UpdateMonitorParams → UpdateMonitorParams
schedule_params f p = record p {
  schedule_kind = f.schedule_kind;
  period_s = f.period_s;
  cron_expr = f.cron_expr;
  tz = f.tz;
  grace_s = f.grace_s;
}

abbrev pub probe_params : HttpFields → UpdateMonitorParams → UpdateMonitorParams
probe_params f p = record p {
  url = f.url;
  method = f.method;
  interval_s = f.interval_s;
  timeout_s = f.timeout_s;
  fail_threshold = f.fail_threshold;
  http_config = f.http_config;
}

abbrev pub is_named_empty : Option String → Bool
is_named_empty none = false
is_named_empty (some s) = is_empty s

abbrev pub accept_unless : {A : Type 0} → Option FieldError → A → Checked A
accept_unless none a = accepted a
accept_unless (some e) a = refused e

abbrev pub schedule_refusal : Option ValidationError → Option FieldError
schedule_refusal none = none
schedule_refusal (some e) = some (schedule_error e)

module _ (z : Zones) (formats : Formats) where
  -- The switch on the kind of the stored monitor.
  unfoldable pub validate_kind :
      MonitorKind → Monitor → UpdateMonitorRequest → Checked UpdateMonitorParams
  validate_kind heartbeat existing req =
      if sets_probe req.probe
      then refused (field_error "url" "must not be set on a heartbeat monitor")
      else if sets_schedule req.schedule
      then accept_unless
          (schedule_refusal (validate z (merge_schedule_config existing req.schedule)))
          (schedule_params req.schedule (common_params req))
      else accepted (common_params req)
  validate_kind http existing req =
      if sets_schedule req.schedule
      then refused (field_error "schedule_kind" "must not be set on an http monitor")
      else if sets_probe req.probe
      then accept_unless (validate_http_fields formats (merge_http_fields existing req.probe))
          (probe_params req.probe (common_params req))
      else accepted (common_params req)

  unfoldable pub validate_update : Monitor → UpdateMonitorRequest → Checked UpdateMonitorParams
  unfolding validate_kind
  validate_update existing req =
      if is_named_empty req.name
      then refused (field_error "name" "name must not be empty")
      else validate_kind existing.kind existing req
