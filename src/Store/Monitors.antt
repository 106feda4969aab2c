-- ===== src/Store/Monitors.antt =====
-- backend/store/monitor.go and slug.go: the monitors of a user. The ids of monitors and callers are
-- parsed already, and a row is answered as the table has it. `draw n` is what the n-th attempt has
-- of the random source: the bytes of a slug, or a failure, and the id of the new row.
pub mod Slug
pub mod Laws
pub mod Promise
pub mod Create
pub mod Delete
mod Examples
use ping.Prelude.{
  ℕ, zero, suc, ◌+◌, String, Bool, true, false, not, ◌&&◌, ◌||◌, Option, none, some, List, [], ◌∷◌,
  ◌++◌, is_some, ◌==◌, if◌then◌else◌,
}
use ping.Prelude.Int.{ℤ}
use ping.Schedule.{Kind, period, cron, other}
use ping.Schedule.Text.{is_empty}
use ping.Db.{Db, Monitor, MonitorKind, EventType, Meta, text, fields}
use ping.Db.Result.{
  Result, ok, err, Error, driver, unique_violation, not_found, forbidden, slug_retries_exhausted,
}
use ping.Db.Edits
use ping.Db.Edits.{created_row}
use ping.Db.Monitors.{get_monitor_by_id}
use ping.Store.{
  Conn, Op, pure, fail_with, ◌>>=◌, ◌>>◌, exec, with_tx, missing_as_not_found, continue_with,
}
use ping.Store.Checkin.{text_or_null, record_event_meta}
use ping.Store.Monitors.Slug.{slug_of}

abbrev pub max_slug_retries : ℕ
max_slug_retries = 5

pub record CreateMonitorParams : Type 0 where
  pub user_id : ℕ
  pub kind : MonitorKind
  pub name : String
  pub schedule_kind : Option Kind
  pub period_s : Option ℤ
  pub cron_expr : String
  pub tz : String
  pub grace_s : Option ℤ
  pub url : String
  pub method : String
  pub interval_s : Option ℤ
  pub timeout_s : Option ℤ
  pub fail_threshold : Option ℤ
  pub http_config : Option String
  pub auto_resume : Option Bool

abbrev pub insert_params : CreateMonitorParams → String → Edits.CreateMonitorParams
insert_params p slug = record {
  user_id = p.user_id;
  kind = p.kind;
  slug = slug;
  name = p.name;
  schedule_kind = p.schedule_kind;
  period_s = p.period_s;
  cron_expr = text_or_null p.cron_expr;
  tz = p.tz;
  grace_s = p.grace_s;
  url = text_or_null p.url;
  method = text_or_null p.method;
  interval_s = p.interval_s;
  timeout_s = p.timeout_s;
  fail_threshold = p.fail_threshold;
  http_config = p.http_config;
  auto_resume = p.auto_resume;
}

-- What an attempt draws: the bytes of the slug, if the source gives them, and the id of the row.
pub record Draw : Type 0 where
  pub bytes : Option (List ℕ)
  pub uuid : ℕ

abbrev pub is_unique_violation : Error → Bool
is_unique_violation unique_violation = true
is_unique_violation _ = false

-- After a unique violation there is another attempt; all else is the result.
abbrev pub retry_on_unique : Result Monitor → Op Monitor → Op Monitor
retry_on_unique (ok row) next = pure row
retry_on_unique (err e) next = if is_unique_violation e then next else fail_with e

abbrev pub retrying : Op Monitor → Op Monitor → Op Monitor
retrying insert next c = let r = insert c in retry_on_unique r.0 next r.1

abbrev pub attempt : CreateMonitorParams → Option (List ℕ) → ℕ → Op Monitor → Op Monitor
attempt p none uuid next = fail_with driver
attempt p (some bytes) uuid next =
    retrying (exec (Edits.create_monitor uuid (insert_params p (slug_of bytes)))) next

unfoldable pub create_attempts : CreateMonitorParams → (ℕ → Draw) → ℕ → ℕ → Op Monitor
create_attempts p draw zero k = fail_with slug_retries_exhausted
create_attempts p draw (suc left) k =
    let next = create_attempts p draw left (k + 1) in attempt p (draw k).bytes (draw k).uuid next

unfoldable pub create_monitor : CreateMonitorParams → (ℕ → Draw) → Op Monitor
unfolding create_attempts
create_monitor p draw = create_attempts p draw max_slug_retries 0

unfoldable pub get_monitor : ℕ → ℕ → Op Monitor
get_monitor id user = do
  row ← missing_as_not_found (exec (get_monitor_by_id id))
  if row.user_id == user then pure row else fail_with forbidden

-- An empty text, or an absent value, leaves the column.
pub record UpdateMonitorParams : Type 0 where
  pub name : String
  pub schedule_kind : Option Kind
  pub period_s : Option ℤ
  pub cron_expr : String
  pub tz : String
  pub grace_s : Option ℤ
  pub url : String
  pub method : String
  pub interval_s : Option ℤ
  pub timeout_s : Option ℤ
  pub fail_threshold : Option ℤ
  pub http_config : Option String
  pub auto_resume : Option Bool

abbrev pub update_params : UpdateMonitorParams → Edits.UpdateMonitorParams
update_params p = record {
  name = text_or_null p.name;
  schedule_kind = p.schedule_kind;
  period_s = p.period_s;
  cron_expr = text_or_null p.cron_expr;
  tz = text_or_null p.tz;
  grace_s = p.grace_s;
  url = text_or_null p.url;
  method = text_or_null p.method;
  interval_s = p.interval_s;
  timeout_s = p.timeout_s;
  fail_threshold = p.fail_threshold;
  http_config = p.http_config;
  auto_resume = p.auto_resume;
}

abbrev add : String → Bool → List String → List String
add name changed rest = if changed then name ∷ rest else rest

-- The fields that the PATCH carries.
unfoldable pub changed_fields : UpdateMonitorParams → List String
changed_fields p = add "name" (not (is_empty p.name)) (
    add "schedule_kind" (is_some p.schedule_kind) (
      add "period_s" (is_some p.period_s) (
        add "cron_expr" (not (is_empty p.cron_expr)) (
          add "tz" (not (is_empty p.tz)) (
            add "grace_s" (is_some p.grace_s) (
              add "url" (not (is_empty p.url)) (
                add "method" (not (is_empty p.method)) (
                  add "interval_s" (is_some p.interval_s) (
                    add "timeout_s" (is_some p.timeout_s) (
                      add "fail_threshold" (is_some p.fail_threshold) (
                        add "http_config" (is_some p.http_config)
                          (add "auto_resume" (is_some p.auto_resume) []))))))))))))

-- The payload of the event, if a field changed.
abbrev pub fields_meta : List String → Option Meta
fields_meta [] = none
fields_meta (f ∷ fs) = some (fields (f ∷ fs))

unfoldable pub changed_fields_meta : UpdateMonitorParams → Option Meta
unfolding changed_fields
changed_fields_meta p = fields_meta (changed_fields p)

abbrev pub note_change : ℕ → Option Meta → Monitor → Op Monitor
note_change i none row = pure row
note_change i (some meta) row =
    record_event_meta i EventType.config_change (text "Configuration updated") meta >> pure row

unfoldable pub update_monitor : ℕ → ℕ → UpdateMonitorParams → Op Monitor
unfolding changed_fields_meta
update_monitor id user p = with_tx do
  row ← missing_as_not_found (exec (Edits.update_monitor (update_params p) id user))
  note_change row.id (changed_fields_meta p) row

unfoldable pub delete_monitor : ℕ → ℕ → Op (Unit {0})
delete_monitor id user = do
  rows_affected ← exec (Edits.delete_monitor id user)
  if rows_affected == 0 then fail_with not_found else pure tt
