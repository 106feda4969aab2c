-- ===== src/Store/Scheduler/Examples.antt =====
-- A tick over a backup that misses its deadline and one that is late already.
use ping.Prelude.{
  ◌+◌, ◌*◌, ◌≤◌, ◌≡◌, refl, ℕ, Bool, false, find, is_some, map_option, select, length, update_where,
  if◌then◌else◌,
}
use ping.Schedule.{Instant, hour}
use ping.Db.{has_id}
use ping.Db.Result.{ok}
use ping.Db.Sort.{sort_by, insert_by}
use ping.Db.Monitors.{claim_due_monitors, is_due, mark_monitor_late, mark_monitor_down}
use ping.Db.Outbox.{insert_event, insert_alert}
use ping.Db.Samples.{quiet}
use ping.Store.{Conn, calm, run, with_tx, ◌>>=◌, exec}
use ping.Store.Checkin.{record_transition}
use ping.Store.Scheduler.{EvalResult, evaluate_due_monitors, evaluate_all, evaluate_one}
use ping.Store.Scheduler.Rows.{evaluated, evaluate_rows}
use ping.Store.Scheduler.Outcome.{evaluate_counts}

abbrev noon : Instant
noon = 101 * hour

abbrev free : ℕ → Bool
free i = false

abbrev one_late_one_down : EvalResult
one_late_one_down = record { claimed = 2; to_late = 1; to_down = 1 }

machine : Unit {0}
unfolding evaluate_due_monitors evaluate_all evaluate_one with_tx exec ◌>>=◌ claim_due_monitors
    is_due sort_by insert_by insert_event insert_alert mark_monitor_late mark_monitor_down find
    select update_where run record_transition
machine = tt

abbrev after : Conn
after = (evaluate_due_monitors noon 100 free (calm quiet)).1

noon_tick : evaluate_due_monitors noon 100 free (calm quiet) ≡ (ok one_late_one_down, after)
unfolding machine
noon_tick = refl

evaluate_counts_example :
    (2 ≤ 100)
    × (1 + 1 ≡ 2)
    × (length after.db.events ≡ length quiet.events + 2)
    × (length after.db.alerts ≡ length quiet.alerts + 1)
evaluate_counts_example =
    evaluate_counts noon 100 free (calm quiet) after one_late_one_down noon_tick

evaluate_rows_example : find (has_id 2) after.db.monitors ≡ (
    if is_some (find (has_id 2) (claim_due_monitors noon 100 free quiet))
    then map_option (evaluated (101 * hour)) (find (has_id 2) quiet.monitors)
    else find (has_id 2) quiet.monitors)
evaluate_rows_example =
    evaluate_rows noon 100 free (calm quiet) after one_late_one_down
      ((refl, (refl, tt)), ((refl, tt), (tt, tt))) noon_tick 2
