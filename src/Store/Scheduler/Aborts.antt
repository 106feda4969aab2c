-- ===== src/Store/Scheduler/Aborts.antt =====
-- The steps of a tick pass every failure on, so that its transaction rolls back.
use ping.Prelude.{Option, none, some, List, [], ◌∷◌}
use ping.Schedule.{Instant}
use ping.Db.{Monitor, State}
use ping.Store.Tx.{Faithful, >>=-Faithful, exec-Faithful, pure-Faithful}
use ping.Store.Timeline.{event-Faithful, transition-Faithful}
use ping.Store.Scheduler.{EvalResult, evaluate_state, evaluate_deadline, evaluate_one, evaluate_all}

state-Faithful :
    (s : State) (m : Monitor) (t : Instant) (res : EvalResult) → Faithful (evaluate_state s m t res)
unfolding evaluate_state
state-Faithful State.new m t res = pure-Faithful res
state-Faithful State.down m t res = pure-Faithful res
state-Faithful State.up m t res =
    >>=-Faithful (exec-Faithful _) (λ _. >>=-Faithful (event-Faithful _ _ _) (λ e. pure-Faithful _))
state-Faithful State.late m t res =
    >>=-Faithful (exec-Faithful _)
      (λ _. >>=-Faithful (transition-Faithful _ _ _) (λ e. pure-Faithful _))

deadline-Faithful :
    (o : Option Instant) (m : Monitor) (res : EvalResult) → Faithful (evaluate_deadline o m res)
unfolding evaluate_deadline
deadline-Faithful none m res = pure-Faithful res
deadline-Faithful (some t) m res = state-Faithful m.state m t res

pub all-Faithful : (ms : List Monitor) (res : EvalResult) → Faithful (evaluate_all ms res)
unfolding evaluate_all evaluate_one
all-Faithful [] res = pure-Faithful res
all-Faithful (m ∷ ms) res =
    >>=-Faithful (deadline-Faithful m.next_deadline m res) (λ res'. all-Faithful ms res')
