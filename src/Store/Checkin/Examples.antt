-- ===== src/Store/Checkin/Examples.antt =====
-- A failing backup: the ping that takes it down.
use ping.Prelude.{◌*◌, String, Option, none, some, find, update_where}
use ping.Schedule.{hour}
use ping.Schedule.Examples.{zones}
use ping.Db.{State, fail}
use ping.Db.Monitors.{get_monitor_by_slug_for_update, update_monitor_on_checkin}
use ping.Db.Checkins.{insert_checkin}
use ping.Db.Outbox.{insert_event, insert_alert}
use ping.Db.Samples.{quiet}
use ping.Store.{Conn, calm, run, with_tx, ◌>>=◌, exec}
use ping.Store.Checkin.{RecordCheckinParams, RecordCheckinResult, record_checkin}

abbrev no_addr : String → Option String
no_addr s = none

abbrev failed_backup : RecordCheckinParams
failed_backup = record {
  slug = "abc";
  kind = fail;
  source_ip = "";
  user_agent = "curl";
  body = "";
  now = 101 * hour;
}

abbrev went_down : RecordCheckinResult
went_down = record {
  monitor_id = 1;
  state = State.down;
  transition = some State.down;
  next_deadline = none;
}

machine : Unit {0}
unfolding record_checkin with_tx exec ◌>>=◌ get_monitor_by_slug_for_update insert_checkin
    insert_event insert_alert update_monitor_on_checkin find update_where run
machine = tt

abbrev after : Conn
after = (record_checkin zones no_addr failed_backup (calm quiet)).1
