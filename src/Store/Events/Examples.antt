-- ===== src/Store/Events/Examples.antt =====
-- The owner pauses the backup, and resumes it a week later.
use ping.Prelude.{ℕ, ◌*◌, ◌≡◌, refl, Bool, false, some, find, update_where}
use ping.Schedule.{hour, next_occurrence, validate}
use ping.Schedule.Examples.{zones}
use ping.Db.{Monitor, State}
use ping.Db.Result.{ok}
use ping.Db.Monitors
use ping.Db.Monitors.{
  is_owned, is_due, is_probe_due, update_owned, get_monitor_by_id, paused_row, resumed_row,
}
use ping.Db.Outbox.{insert_event}
use ping.Db.Samples.{backup, quiet}
use ping.Store.{Conn, calm, with_tx, ◌>>=◌, exec}
use ping.Store.Checkin.{record_event, next_deadline_for, schedule_config}
use ping.Store.Events.{pause_monitor, resume_monitor}
use ping.Store.Events.Laws.{paused_rests}

abbrev paused : Conn
paused = (pause_monitor 1 7 (calm quiet)).1

abbrev paused_backup : Monitor
paused_backup = paused_row (101 * hour) backup

machine : Unit {0}
unfolding pause_monitor Monitors.pause_monitor resume_monitor Monitors.resume_monitor update_owned
    get_monitor_by_id insert_event record_event with_tx exec ◌>>=◌ find update_where
    next_deadline_for schedule_config next_occurrence validate
machine = tt

pause_answer : pause_monitor 1 7 (calm quiet) ≡ (ok paused_backup, paused)
unfolding machine
pause_answer = refl

paused_rests_example :
    (m : Monitor) × (find (is_owned 1 7) quiet.monitors ≡ some m)
    × (find (is_owned 1 7) paused.db.monitors ≡ some paused_backup)
    × (State.up ≡ m.state)
    × ((now : ℕ) (locked : ℕ → Bool)
        → (is_due now locked paused_backup ≡ false)
          × (is_probe_due now locked paused_backup ≡ false))
paused_rests_example = paused_rests 1 7 (calm quiet) paused paused_backup pause_answer

abbrev resumed : Conn
resumed = (resume_monitor zones 1 7 (269 * hour) paused).1

abbrev resumed_backup : Monitor
resumed_backup = resumed_row (some (270 * hour)) (101 * hour) paused_backup
