-- ===== src/System/Examples.antt =====
-- A day of the backend: the backup is paused and resumed, a monitor is deleted, and old rows go.
use ping.Prelude.{ℕ, ◌*◌, refl, Bool, false, String, Option, none, List, [], ◌∷◌, select, ◌==◌}
use ping.Schedule.{hour}
use ping.Schedule.Examples.{zones}
use ping.Db.Samples.{quiet}
use ping.Store.Promise.{IsOutbox}
use ping.Store.Tx.{IsAtomic}
use ping.Store.Checkin.{RecordCheckinParams, record_checkin}
use ping.Store.Scheduler.{evaluate_due_monitors}
use ping.Store.Prober.{ProbeOutcome, record_probe_result}
use ping.Store.Alerter.{fail_alert}
use ping.Store.Events.{pause_monitor, mute_monitor, unmute_monitor, resume_monitor}
use ping.Store.Monitors.{UpdateMonitorParams, update_monitor}
use ping.System.{Operation, wait, evaluate, pause, resume, delete, prune, Turn, history}
use ping.System.Outbox.{history-IsOutbox}
use ping.System.Atomic.{transactions-IsAtomic}

abbrev fine : Operation → Turn
fine o = record { operation = o; fault = λ n. false }

-- The commit of the deletion fails, and every other statement is fine.
abbrev day : List Turn
day =
    fine (wait (102 * hour))
    ∷ fine (evaluate (102 * hour) 100 (λ i. false))
    ∷ fine (pause 1 7)
    ∷ fine (resume zones 1 7 (103 * hour))
    ∷ record { operation = delete 2 7; fault = λ n. n == 2 }
    ∷ fine (prune (λ n. false) 10 (90 * hour))
    ∷ []

quiet-IsOutbox : IsOutbox quiet
unfolding select
quiet-IsOutbox = record { paired = refl; fresh = tt; ordered = tt }

history-IsOutbox_example : IsOutbox (history day quiet)
history-IsOutbox_example = history-IsOutbox day quiet quiet-IsOutbox

abbrev no_addr : String → Option String
no_addr s = none

transactions-IsAtomic_example :
    ((p : RecordCheckinParams) → IsAtomic (record_checkin zones no_addr p))
    × ((limit : ℕ) (locked : ℕ → Bool) → IsAtomic (evaluate_due_monitors (102 * hour) limit locked))
    × ((o : ProbeOutcome) → IsAtomic (record_probe_result (102 * hour) o))
    × ((reason : String) → IsAtomic (fail_alert 1 7 reason))
    × IsAtomic (pause_monitor 1 7)
    × IsAtomic (mute_monitor 1 7)
    × IsAtomic (unmute_monitor 1 7)
    × IsAtomic (resume_monitor zones 1 7 (102 * hour))
    × ((p : UpdateMonitorParams) → IsAtomic (update_monitor 1 7 p))
transactions-IsAtomic_example = transactions-IsAtomic zones no_addr 1 7 (102 * hour)
