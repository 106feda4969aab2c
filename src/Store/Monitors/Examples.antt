-- ===== src/Store/Monitors/Examples.antt =====
-- A third monitor is created, renamed and deleted.
use ping.Prelude.{
  ℕ, zero, suc, ◌+◌, ◌≡◌, refl, true, none, some, List, [], ◌∷◌, find, is_some, update_where,
}
use ping.Prelude.Int.{pos}
use ping.Schedule.{period}
use ping.Db.{Monitor, heartbeat}
use ping.Db.Edits
use ping.Db.Edits.{updated_row, has_user}
use ping.Db.Monitors.{update_owned}
use ping.Db.Outbox.{insert_event}
use ping.Db.Samples.{backup, quiet}
use ping.Store.{Conn, calm, exec, with_tx, ◌>>=◌}
use ping.Store.Checkin.{record_event_meta}
use ping.Store.Monitors.{
  CreateMonitorParams, UpdateMonitorParams, update_params, update_monitor, create_monitor,
  changed_fields, changed_fields_meta,
}
use ping.Store.Monitors.Slug.{slug_of, groups}
use ping.Store.Monitors.Create.{draws, first_free, Owed, create_monitor_lem}

abbrev report : CreateMonitorParams
report = record {
  user_id = 7;
  kind = heartbeat;
  name = "report";
  schedule_kind = some period;
  period_s = some (pos 3600);
  cron_expr = "";
  tz = "UTC";
  grace_s = some (pos 300);
  url = "";
  method = "";
  interval_s = none;
  timeout_s = none;
  fail_threshold = none;
  http_config = none;
  auto_resume = none;
}

-- The bytes of RFC 4648's example, padded.
abbrev foobar : List ℕ
foobar = 102 ∷ 111 ∷ 111 ∷ 98 ∷ 97 ∷ 114 ∷ 0 ∷ 0 ∷ 0 ∷ 0 ∷ []

foobar_slug : slug_of foobar ≡ "mzxw6ytboiaaaaaa"
unfolding slug_of groups
foobar_slug = refl

-- The first id is taken.
abbrev uuids : ℕ → ℕ
uuids zero = 1
uuids (suc n) = 10 + n

owner_there : is_some (find (has_user 7) quiet.users) ≡ true
unfolding find
owner_there = refl

create_monitor_lem_example :
    Owed report
      (λ k. foobar)
      uuids
      quiet
      (first_free report (λ k. foobar) uuids quiet 5 0)
      (create_monitor report (draws report (λ k. foobar) uuids) (calm quiet)).0
      (create_monitor report (draws report (λ k. foobar) uuids) (calm quiet)).1.db
create_monitor_lem_example =
    create_monitor_lem report (λ k. foobar) uuids quiet refl owner_there (calm quiet) refl
      (λ n. refl)

abbrev renaming : UpdateMonitorParams
renaming = record {
  name = "nightly backup";
  schedule_kind = none;
  period_s = none;
  cron_expr = "";
  tz = "";
  grace_s = some (pos 600);
  url = "";
  method = "";
  interval_s = none;
  timeout_s = none;
  fail_threshold = none;
  http_config = none;
  auto_resume = none;
}

abbrev renamed : Conn
renamed = (update_monitor 1 7 renaming (calm quiet)).1

abbrev renamed_backup : Monitor
renamed_backup = updated_row (update_params renaming) quiet.now backup

machine : Unit {0}
unfolding update_monitor Edits.update_monitor update_owned insert_event record_event_meta with_tx
    exec ◌>>=◌ find update_where changed_fields changed_fields_meta
machine = tt
