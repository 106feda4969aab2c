-- ===== src/Db/Edits.antt =====
-- backend/db/monitors.sql.go: the statements that create, change and delete monitors. The id of a
-- new row (gen_random_uuid) is an argument.
use text.Mathlib.Text.{◌==◌ as str_eq}
use ping.Prelude.{
  ℕ, String, Bool, true, false, not, ◌&&◌, ◌||◌, Option, none, some, [], ◌∷◌, ◌++◌, find, select,
  is_some, length, ◌==◌, if◌then◌else◌,
}
use ping.Prelude.Int.{ℤ, pos}
use ping.Schedule.{Instant, Kind, other}
use ping.Schedule.Text.{is_empty}
use ping.Db.{Db, Monitor, MonitorKind, heartbeat, http, State, User, has_id}
use ping.Db.Result.{Result, ok, err, check_violation, unique_violation, foreign_key_violation}
use ping.Db.Monitors.{is_owned, has_slug, update_owned}

pub record CreateMonitorParams : Type 0 where
  pub user_id : ℕ
  pub kind : MonitorKind
  pub slug : String
  pub name : String
  pub schedule_kind : Option Kind
  pub period_s : Option ℤ
  pub cron_expr : Option String
  pub tz : String
  pub grace_s : Option ℤ
  pub url : Option String
  pub method : Option String
  pub interval_s : Option ℤ
  pub timeout_s : Option ℤ
  pub fail_threshold : Option ℤ
  pub http_config : Option String
  pub auto_resume : Option Bool

-- COALESCE.
abbrev pub coalesce {ℓ} : {A : Type ℓ} → Option A → A → A
coalesce none old = old
coalesce (some a) old = a

-- COALESCE for a column that may be NULL.
abbrev pub coalesce_null {ℓ} : {A : Type ℓ} → Option A → Option A → Option A
coalesce_null none old = old
coalesce_null (some a) old = some a

abbrev pub is_known_kind : Option Kind → Bool
is_known_kind (some (other _)) = false
is_known_kind _ = true

abbrev pub is_known_method : Option String → Bool
is_known_method none = true
is_known_method (some m) = str_eq m "GET" || str_eq m "POST" || str_eq m "HEAD"

-- CASE WHEN kind = 'http' THEN now().
abbrev pub first_probe : MonitorKind → Instant → Option Instant
first_probe http now = some now
first_probe heartbeat now = none

abbrev pub created_row : ℕ → CreateMonitorParams → Instant → Monitor
created_row id p now = record {
  id = id;
  user_id = p.user_id;
  kind = p.kind;
  slug = p.slug;
  name = p.name;
  schedule_kind = p.schedule_kind;
  period_s = p.period_s;
  cron_expr = p.cron_expr;
  tz = if is_empty p.tz then "UTC" else p.tz;
  grace_s = p.grace_s;
  url = p.url;
  method = p.method;
  interval_s = p.interval_s;
  timeout_s = p.timeout_s;
  fail_threshold = p.fail_threshold;
  http_config = coalesce p.http_config "{}";
  state = State.new;
  fail_streak = pos 0;
  last_checkin_at = none;
  next_deadline = none;
  next_probe_at = first_probe p.kind now;
  alerts_muted = false;
  paused_at = none;
  created_at = now;
  updated_at = now;
  auto_resume = coalesce p.auto_resume true;
  reminder_every_s = 86400;
  tls_warned_expires_at = none;
}

abbrev pub has_user : ℕ → User → Bool
has_user i u = u.id == i

unfoldable pub create_monitor : ℕ → CreateMonitorParams → Db → Result (Monitor × Db)
create_monitor id p db =
    let row = created_row id p db.now in
    if not (is_known_kind p.schedule_kind && is_known_method p.method)
    then err check_violation
    else if is_some (find (has_slug p.slug) db.monitors) || is_some (find (has_id id) db.monitors)
    then err unique_violation
    else if is_some (find (has_user p.user_id) db.users)
    then ok (row, record db { monitors = db.monitors ++ row ∷ [] })
    else err foreign_key_violation

pub record UpdateMonitorParams : Type 0 where
  pub name : Option String
  pub schedule_kind : Option Kind
  pub period_s : Option ℤ
  pub cron_expr : Option String
  pub tz : Option String
  pub grace_s : Option ℤ
  pub url : Option String
  pub method : Option String
  pub interval_s : Option ℤ
  pub timeout_s : Option ℤ
  pub fail_threshold : Option ℤ
  pub http_config : Option String
  pub auto_resume : Option Bool

abbrev pub updated_row : UpdateMonitorParams → Instant → Monitor → Monitor
updated_row p now m = record m {
  name = coalesce p.name m.name;
  schedule_kind = coalesce_null p.schedule_kind m.schedule_kind;
  period_s = coalesce_null p.period_s m.period_s;
  cron_expr = coalesce_null p.cron_expr m.cron_expr;
  tz = coalesce p.tz m.tz;
  grace_s = coalesce_null p.grace_s m.grace_s;
  url = coalesce_null p.url m.url;
  method = coalesce_null p.method m.method;
  interval_s = coalesce_null p.interval_s m.interval_s;
  timeout_s = coalesce_null p.timeout_s m.timeout_s;
  fail_threshold = coalesce_null p.fail_threshold m.fail_threshold;
  http_config = coalesce p.http_config m.http_config;
  auto_resume = coalesce p.auto_resume m.auto_resume;
  updated_at = now;
}

-- The CHECK constraints read the new row; the old one meets them.
unfoldable pub update_monitor : UpdateMonitorParams → ℕ → ℕ → Db → Result (Monitor × Db)
unfolding update_owned
update_monitor p i user db =
    if is_known_kind p.schedule_kind && is_known_method p.method
    then update_owned i user (updated_row p db.now) db
    else if is_some (find (is_owned i user) db.monitors)
    then err check_violation
    else update_owned i user (updated_row p db.now) db

-- ON DELETE CASCADE: what is about the monitor goes with it.
abbrev pub without_monitor : ℕ → ℕ → Db → Db
without_monitor i user db = record db {
  monitors = select (λ m. not (is_owned i user m)) db.monitors;
  checkins = select (λ r. not (r.monitor_id == i)) db.checkins;
  events = select (λ e. not (e.monitor_id == i)) db.events;
  alerts = select (λ a. not (a.monitor_id == i)) db.alerts;
  probe_results = select (λ r. not (r.monitor_id == i)) db.probe_results;
  daily_stats = select (λ s. not (s.monitor_id == i)) db.daily_stats;
}

-- The number of rows that are deleted, and the tables.
unfoldable pub delete_monitor : ℕ → ℕ → Db → Result (ℕ × Db)
delete_monitor i user db = ok (
  length (select (is_owned i user) db.monitors),
  if is_some (find (is_owned i user) db.monitors) then without_monitor i user db else db,
)
