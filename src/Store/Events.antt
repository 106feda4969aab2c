-- ===== src/Store/Events.antt =====
-- backend/store/events.go: pause, mute, unmute and resume. The ids of the monitor and of the caller
-- are parsed already; a row is answered as the table has it.
pub mod Laws
pub mod Resume
mod Examples
use ping.Prelude.{ℕ, String, Option}
use ping.Schedule.{Zones, Instant}
use ping.Db.{Db, Monitor, EventType, text}
use ping.Db.Result.{Result}
use ping.Db.Monitors
use ping.Db.Monitors.{get_monitor_by_id}
use ping.Store.{Op, pure, ◌>>=◌, ◌>>◌, exec, with_tx, of_result, missing_as_not_found}
use ping.Store.Checkin.{record_event, next_deadline_for}

unfoldable pub flag_monitor : (Db → Result (Monitor × Db)) → EventType → String → Op Monitor
flag_monitor update event_type message = with_tx do
  row ← missing_as_not_found (exec update)
  record_event row.id event_type (text message)
  pure row

unfoldable pub pause_monitor : ℕ → ℕ → Op Monitor
unfolding flag_monitor
pause_monitor id user =
    flag_monitor (Monitors.pause_monitor id user) EventType.pause "Monitor paused"

unfoldable pub mute_monitor : ℕ → ℕ → Op Monitor
unfolding flag_monitor
mute_monitor id user = flag_monitor (Monitors.mute_monitor id user) EventType.mute "Alerts muted"

unfoldable pub unmute_monitor : ℕ → ℕ → Op Monitor
unfolding flag_monitor
unmute_monitor id user =
    flag_monitor (Monitors.unmute_monitor id user) EventType.unmute "Alerts unmuted"

unfoldable pub resume_monitor : Zones → ℕ → ℕ → Instant → Op Monitor
resume_monitor z id user now = with_tx do
  m ← missing_as_not_found (exec (get_monitor_by_id id))
  next_deadline ← of_result (next_deadline_for z m now)
  row ← missing_as_not_found (exec (Monitors.resume_monitor next_deadline id user))
  record_event row.id EventType.resume (text "Monitor resumed")
  pure row
