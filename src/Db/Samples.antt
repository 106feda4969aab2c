-- ===== src/Db/Samples.antt =====
-- Small databases that the examples run on.
use ping.Prelude.{true, false, none, some, [], ◌∷◌, ◌*◌}
use ping.Prelude.Int.{pos}
use ping.Schedule.{period, hour}
use ping.Db.{Db, Monitor, heartbeat, http, State, User}

abbrev pub backup : Monitor
backup = record {
  id = 1;
  user_id = 7;
  kind = heartbeat;
  slug = "abc";
  name = "backup";
  schedule_kind = some period;
  period_s = some (pos 3600);
  cron_expr = none;
  tz = "UTC";
  grace_s = some (pos 300);
  url = none;
  method = none;
  interval_s = none;
  timeout_s = none;
  fail_threshold = none;
  http_config = "{}";
  state = State.up;
  fail_streak = pos 0;
  last_checkin_at = none;
  next_deadline = some (100 * hour);
  next_probe_at = none;
  alerts_muted = false;
  paused_at = none;
  created_at = 1;
  updated_at = 1;
  auto_resume = true;
  reminder_every_s = 86400;
  tls_warned_expires_at = none;
}

abbrev pub late_backup : Monitor
late_backup = record backup {
  id = 2;
  slug = "def";
  state = State.late;
  next_deadline = some (90 * hour);
}

abbrev pub site : Monitor
site = record backup {
  id = 3;
  slug = "ghi";
  kind = http;
  schedule_kind = none;
  next_deadline = none;
  next_probe_at = some (99 * hour);
  fail_threshold = some (pos 2);
}

abbrev pub owner : User
owner = record { id = 7; email = "a@b.c" }

abbrev pub quiet : Db
quiet = record {
  users = owner ∷ [];
  monitors = backup ∷ late_backup ∷ site ∷ [];
  checkins = [];
  events = [];
  alerts = [];
  probe_results = [];
  daily_stats = [];
  api_keys = [];
  next_checkin_id = 1;
  next_event_id = 1;
  next_alert_id = 1;
  next_probe_id = 1;
  now = 101 * hour;
}
