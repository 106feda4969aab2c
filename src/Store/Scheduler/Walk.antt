-- ===== src/Store/Scheduler/Walk.antt =====
-- The tables after the evaluation of a list of claimed monitors, in closed form.
use ping.Prelude.{ℕ, ◌+◌, ◌≡◌, ap, ap₂, ◌∙◌, Option, none, some, List, [], ◌∷◌, Bool, length, arith}
use ping.Prelude.Int.{suc_int32}
use ping.Schedule.{Instant, add}
use ping.Db.{Db, Monitor, State, EventType, text, empty}
use ping.Db.Monitors.{claim_due_monitors, mark_monitor_late, mark_monitor_down, set_monitor}
use ping.Store.{exec, change}
use ping.Store.Steps.{
  Ensures, weaken, pure-Ensures, exec-Ensures, change-Ensures, query-Ensures, with_tx-Ensures,
  >>=-Ensures,
}
use ping.Store.Timeline.{noted, paged, event-Ensures, transition-Ensures}
use ping.Store.Checkin.{seconds_or_zero}
use ping.Store.Scheduler.{
  EvalResult, evaluate_state, evaluate_deadline, evaluate_one, evaluate_all, evaluate_due_monitors,
}

-- The row of a monitor whose occurrence `t` has passed.
abbrev pub late_row : Monitor → Instant → Instant → Monitor → Monitor
late_row m t now row = record row {
  state = State.late;
  next_deadline = some (add t (seconds_or_zero m.grace_s));
  updated_at = now;
}

-- The row of a monitor whose grace has passed too.
abbrev pub down_row : Instant → Monitor → Monitor
down_row now row = record row {
  state = State.down;
  next_deadline = none;
  fail_streak = suc_int32 row.fail_streak;
  updated_at = now;
}

abbrev pub walk_state : State → Monitor → Instant → Db → Db
walk_state State.up m t d =
    noted m.id EventType.late (text "Monitor is late") empty
      (set_monitor m.id (late_row m t d.now) d)
walk_state State.late m t d =
    paged m.id EventType.down (text "Monitor missed its deadline") empty
      (set_monitor m.id (down_row d.now) d)
walk_state _ m t d = d

abbrev pub walk_deadline : Option Instant → Monitor → Db → Db
walk_deadline none m d = d
walk_deadline (some t) m d = walk_state m.state m t d

unfoldable pub walk : List Monitor → Db → Db
walk [] d = d
walk (m ∷ ms) d = walk ms (walk_deadline m.next_deadline m d)

abbrev tally_state : State → EvalResult → EvalResult
tally_state State.up res = record res { to_late = res.to_late + 1 }
tally_state State.late res = record res { to_down = res.to_down + 1 }
tally_state _ res = res

abbrev pub tally_one : Option Instant → State → EvalResult → EvalResult
tally_one none s res = res
tally_one (some t) s res = tally_state s res

unfoldable pub tally : List Monitor → EvalResult → EvalResult
tally [] res = res
tally (m ∷ ms) res = tally ms (tally_one m.next_deadline m.state res)

down-Ensures :
    (i : ℕ) → Ensures (exec (mark_monitor_down i)) (λ d u d'. d' ≡ set_monitor i (down_row d.now) d)
unfolding mark_monitor_down
down-Ensures i = weaken (exec-Ensures (mark_monitor_down i)) (λ d u d' h. ground arith)

late-Ensures :
    (m : Monitor) (t : Instant)
    → Ensures
        (change (mark_monitor_late m.id (some (add t (seconds_or_zero m.grace_s)))))
        (λ d u d'. d' ≡ set_monitor m.id (late_row m t d.now) d)
unfolding mark_monitor_late
late-Ensures m t = change-Ensures _

state-Ensures :
    (s : State) (m : Monitor) (t : Instant) (res : EvalResult)
    → Ensures
        (evaluate_state s m t res)
        (λ d r d'. (r ≡ tally_state s res) × (d' ≡ walk_state s m t d))
unfolding evaluate_state
state-Ensures State.new m t res = pure-Ensures res
state-Ensures State.down m t res = pure-Ensures res
state-Ensures State.up m t res =
    weaken
      (>>=-Ensures (late-Ensures m t) (λ _.
        >>=-Ensures (event-Ensures m.id EventType.late (text "Monitor is late"))
          (λ e. pure-Ensures (record res { to_late = res.to_late + 1 }))))
      (λ d r d' (u, d₁, p, (e, d₂, (_, q), (a, b))).
        (a, b ∙ q ∙ ap (noted m.id EventType.late (text "Monitor is late") empty) p))
state-Ensures State.late m t res =
    weaken
      (>>=-Ensures (down-Ensures m.id) (λ _.
        >>=-Ensures (transition-Ensures m.id EventType.down (text "Monitor missed its deadline"))
          (λ e. pure-Ensures (record res { to_down = res.to_down + 1 }))))
      (λ d r d' (u, d₁, p, (e, d₂, q, (a, b))).
        (a, b ∙ q ∙ ap (paged m.id EventType.down (text "Monitor missed its deadline") empty) p))

one-Ensures :
    (o : Option Instant) (m : Monitor) (res : EvalResult)
    → Ensures
        (evaluate_deadline o m res)
        (λ d r d'. (r ≡ tally_one o m.state res) × (d' ≡ walk_deadline o m d))
unfolding evaluate_deadline
one-Ensures none m res = pure-Ensures res
one-Ensures (some t) m res = state-Ensures m.state m t res

pub all-Ensures :
    (ms : List Monitor) (res : EvalResult)
    → Ensures (evaluate_all ms res) (λ d r d'. (r ≡ tally ms res) × (d' ≡ walk ms d))
unfolding evaluate_all tally walk evaluate_one
all-Ensures [] res = pure-Ensures res
all-Ensures (m ∷ ms) res =
    weaken (>>=-Ensures (one-Ensures m.next_deadline m res) (λ res'. all-Ensures ms res'))
      (λ d r d' (res', d₁, (p, q), (a, b)). (a ∙ ap (tally ms) p, b ∙ ap (walk ms) q))

unfoldable pub start : List Monitor → EvalResult
start rows = record { claimed = length rows; to_late = 0; to_down = 0 }

-- A tick that commits has walked the claimed rows.
pub evaluate-Ensures :
    (now : Instant) (limit : ℕ) (locked : ℕ → Bool)
    → Ensures (evaluate_due_monitors now limit locked) (λ d r d'.
      let rows = claim_due_monitors now limit locked d in
      (r ≡ tally rows (start rows)) × (d' ≡ walk rows d))
unfolding evaluate_due_monitors start
evaluate-Ensures now limit locked =
    weaken
      (with_tx-Ensures (
        >>=-Ensures (query-Ensures (claim_due_monitors now limit locked))
          (λ rows. all-Ensures rows (start rows))))
      (λ d r d' (rows, d₁, (p, q), (a, b)). (a ∙ ap (λ x. tally x (start x)) p, b ∙ ap₂ walk p q))
