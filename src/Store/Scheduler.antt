-- ===== src/Store/Scheduler.antt =====
-- backend/store/scheduler.go: the evaluation of deadlines, one transaction for each tick.
pub mod Walk
pub mod Rows
pub mod Aborts
pub mod Outcome
mod Examples
use ping.Prelude.{ℕ, ◌+◌, Option, none, some, List, [], ◌∷◌, Bool, length}
use ping.Schedule.{Instant, add}
use ping.Db.{Db, Monitor, State, EventType, text}
use ping.Db.Monitors.{claim_due_monitors, mark_monitor_late, mark_monitor_down}
use ping.Store.{Op, pure, ◌>>=◌, ◌>>◌, exec, query, change, with_tx}
use ping.Store.Checkin.{seconds_or_zero, record_event, record_transition}

pub record EvalResult : Type 0 where
  pub claimed : ℕ
  pub to_late : ℕ
  pub to_down : ℕ

-- The switch on the state of a claimed monitor, whose deadline is `t`.
evaluate_state : State → Monitor → Instant → EvalResult → Op EvalResult
evaluate_state State.up m t res = do
  change (mark_monitor_late m.id (some (add t (seconds_or_zero m.grace_s))))
  record_event m.id EventType.late (text "Monitor is late")
  pure (record res { to_late = res.to_late + 1 })
evaluate_state State.late m t res = do
  exec (mark_monitor_down m.id)
  record_transition m.id EventType.down (text "Monitor missed its deadline")
  pure (record res { to_down = res.to_down + 1 })
evaluate_state _ m t res = pure res

evaluate_deadline : Option Instant → Monitor → EvalResult → Op EvalResult
evaluate_deadline none m res = pure res
evaluate_deadline (some t) m res = evaluate_state m.state m t res

unfoldable pub evaluate_one : Monitor → EvalResult → Op EvalResult
unfolding evaluate_state evaluate_deadline
evaluate_one m res = evaluate_deadline m.next_deadline m res

-- The loop over the claimed rows.
unfoldable pub evaluate_all : List Monitor → EvalResult → Op EvalResult
evaluate_all [] res = pure res
evaluate_all (m ∷ ms) res = do res' ← evaluate_one m res; evaluate_all ms res'

unfoldable pub evaluate_due_monitors : Instant → ℕ → (ℕ → Bool) → Op EvalResult
evaluate_due_monitors now limit locked = with_tx do
  rows ← query (claim_due_monitors now limit locked)
  evaluate_all rows (record { claimed = length rows; to_late = 0; to_down = 0 })
