-- ===== src/Server/Monitors/Examples.antt =====
-- Two PATCHes of the backup: a longer grace, and an expression in place of the period.
use ping.Prelude.{◌*◌, ◌≡◌, refl, true, ◌⊎◌, none, some, find, update_where, arith}
use ping.Prelude.Int.{pos}
use ping.Schedule.{Kind, hour, validate, Message}
use ping.Schedule.Text.{contains, fields}
use ping.Schedule.Examples.{zones}
use ping.Db.{Monitor, heartbeat, http, has_id}
use ping.Db.Result.{ok, forbidden}
use ping.Db.Edits
use ping.Db.Edits.{created_row, updated_row}
use ping.Db.Monitors.{is_owned, update_owned, get_monitor_by_id}
use ping.Db.Outbox.{insert_event}
use ping.Db.Samples.{backup, quiet}
use ping.Store.{Conn, calm, exec, with_tx, ◌>>=◌}
use ping.Store.Checkin.{schedule_config, record_event_meta}
use ping.Store.Monitors.{
  UpdateMonitorParams, update_params, insert_params, get_monitor, update_monitor, changed_fields,
  changed_fields_meta,
}
use ping.Server.Monitors.{
  ScheduleFields, HttpFields, UpdateMonitorRequest, Formats, accepted, validate_update,
  validate_kind, merge_schedule_config,
}
use ping.Server.Monitors.Rows.{IsSteady}
use ping.Server.Monitors.Laws.{switched_schedule}
use ping.Server.Monitors.Creation.{
  CreateMonitorRequest, heartbeat_params, schedule_config_from_fields, validate_create,
}
use ping.Server.Monitors.Creation.Laws.{IsProbe, created_lem}
use ping.Server.Monitors.Handlers.{handle_update, handle_delete}
use ping.Server.Monitors.Handlers.Access.{barred, Rests, access_lem}
use ping.Server.Monitors.Handlers.Schedules.{handle_update_lem}

abbrev lenient : Formats
lenient = record { is_http_url = λ s. true; is_json = λ s. true }

abbrev no_probe : HttpFields
no_probe = record {
  url = "";
  method = "";
  interval_s = none;
  timeout_s = none;
  fail_threshold = none;
  http_config = none;
}

abbrev patch_of : ScheduleFields → UpdateMonitorRequest
patch_of f = record { name = none; auto_resume = none; schedule = f; probe = no_probe }

abbrev params_of : ScheduleFields → UpdateMonitorParams
params_of f = record {
  name = "";
  schedule_kind = f.schedule_kind;
  period_s = f.period_s;
  cron_expr = f.cron_expr;
  tz = f.tz;
  grace_s = f.grace_s;
  url = "";
  method = "";
  interval_s = none;
  timeout_s = none;
  fail_threshold = none;
  http_config = none;
  auto_resume = none;
}

abbrev more_grace : ScheduleFields
more_grace = record {
  schedule_kind = none;
  period_s = none;
  cron_expr = "";
  tz = "";
  grace_s = some (pos 600);
}

abbrev at_four : ScheduleFields
at_four = record {
  schedule_kind = some Kind.cron;
  period_s = none;
  cron_expr = "0 4 * * *";
  tz = "";
  grace_s = none;
}

machine : Unit {0}
unfolding validate_create schedule_config_from_fields validate_update validate_kind
    merge_schedule_config schedule_config validate contains fields
machine = tt

more_grace_accepted :
    validate_update zones lenient backup (patch_of more_grace) ≡ accepted (params_of more_grace)
unfolding machine
more_grace_accepted = refl

more_grace-IsSteady : IsSteady backup more_grace
more_grace-IsSteady = (λ h. (refl, refl), λ h. absurd (ground arith))

store_machine : Unit {0}
unfolding machine handle_update get_monitor get_monitor_by_id update_monitor Edits.update_monitor
    update_owned insert_event record_event_meta with_tx exec ◌>>=◌ find update_where changed_fields
    changed_fields_meta
store_machine = tt

backup_valid : validate zones (schedule_config backup) ≡ none
unfolding machine
backup_valid = refl

at_four_accepted :
    validate_update zones lenient backup (patch_of at_four) ≡ accepted (params_of at_four)
unfolding machine
at_four_accepted = refl

switched_schedule_example :
    validate zones
      (schedule_config (updated_row (update_params (params_of at_four)) (101 * hour) backup))
    ≡ some (record { field = "period_s"; message = Message.must_be_zero })
switched_schedule_example =
    switched_schedule zones lenient backup (patch_of at_four) (params_of at_four) (101 * hour) 3599
      refl refl refl refl refl at_four_accepted

abbrev nightly : CreateMonitorRequest
nightly = record {
  kind = "heartbeat";
  name = "nightly";
  auto_resume = none;
  schedule = record {
    schedule_kind = some Kind.period;
    period_s = some (pos 3600);
    cron_expr = "";
    tz = "UTC";
    grace_s = some (pos 300);
  };
  probe = no_probe;
}

nightly_accepted : validate_create zones lenient 7 nightly ≡ accepted (heartbeat_params 7 nightly)
unfolding machine
nightly_accepted = refl

abbrev nightly_row : Monitor
nightly_row = created_row 9 (insert_params (heartbeat_params 7 nightly) "xyz") (101 * hour)

created_lem_example :
    (nightly_row.kind ≡ heartbeat) × (validate zones (schedule_config nightly_row) ≡ none)
    ⊎ (nightly_row.kind ≡ http) × IsProbe lenient nightly_row
created_lem_example =
    created_lem zones lenient 7 9 "xyz" (101 * hour) nightly (heartbeat_params 7 nightly)
      nightly_accepted

stranger_barred : barred (find (has_id 1) quiet.monitors) 8 ≡ some forbidden
unfolding find
stranger_barred = refl

access_lem_example :
    Rests forbidden
      (calm quiet)
      (handle_update zones lenient 1 8 (patch_of more_grace) (calm quiet))
    × Rests forbidden (calm quiet) (handle_delete 1 8 (calm quiet))
access_lem_example =
    access_lem zones lenient 1 8 (calm quiet) forbidden (patch_of more_grace) stranger_barred

abbrev patched : Conn
patched = (handle_update zones lenient 1 7 (patch_of more_grace) (calm quiet)).1

abbrev patched_backup : Monitor
patched_backup = updated_row (update_params (params_of more_grace)) (101 * hour) backup

backup_found : find (has_id 1) quiet.monitors ≡ some backup
unfolding find
backup_found = refl

patch_answer :
    handle_update zones lenient 1 7 (patch_of more_grace) (calm quiet)
    ≡ (ok (accepted patched_backup), patched)
unfolding store_machine
patch_answer = refl

handle_update_lem_example :
    (find (is_owned 1 7) quiet.monitors ≡ some backup)
    × (validate zones (schedule_config patched_backup) ≡ none)
handle_update_lem_example =
    handle_update_lem zones lenient 1 7 (patch_of more_grace) (calm quiet) patched patched_backup
      backup backup_found refl backup_valid more_grace-IsSteady patch_answer
