-- ===== src/System/Atomic.antt =====
-- The transactions of the backend.
use ping.Prelude.{ℕ, String, Bool, Option}
use ping.Schedule.{Zones, Instant}
use ping.Store.Tx.{
  IsAtomic, with_tx-IsAtomic, >>=-Faithful, exec-Faithful, pure-Faithful, missing-Faithful,
  of_result-Faithful,
}
use ping.Store.Timeline.{event-Faithful}
use ping.Store.Checkin.{RecordCheckinParams, record_checkin}
use ping.Store.Checkin.Outcome.{record_checkin-IsAtomic}
use ping.Store.Scheduler.{evaluate_due_monitors}
use ping.Store.Scheduler.Outcome.{evaluate-IsAtomic}
use ping.Store.Prober.{ProbeOutcome, record_probe_result}
use ping.Store.Prober.Outcome.{record_probe_result-IsAtomic}
use ping.Store.Alerter.{fail_alert}
use ping.Store.Alerter.Laws.{fail_alert-IsAtomic}
use ping.Store.Events.{pause_monitor, mute_monitor, unmute_monitor, resume_monitor}
use ping.Store.Events.Laws.{flag-IsAtomic}
use ping.Store.Monitors.{UpdateMonitorParams, update_monitor}
use ping.Store.Monitors.Laws.{update-IsAtomic}

resume-IsAtomic : (z : Zones) (i user : ℕ) (now : Instant) → IsAtomic (resume_monitor z i user now)
unfolding resume_monitor
resume-IsAtomic z i user now = with_tx-IsAtomic (
    >>=-Faithful (missing-Faithful (exec-Faithful _)) (λ m.
      >>=-Faithful (of_result-Faithful _) (λ nd.
        >>=-Faithful (missing-Faithful (exec-Faithful _))
          (λ row. >>=-Faithful (event-Faithful _ _ _) (λ e. pure-Faithful row)))))

pause-IsAtomic : (i user : ℕ) → IsAtomic (pause_monitor i user)
unfolding pause_monitor
pause-IsAtomic i user = flag-IsAtomic _ _ _

mute-IsAtomic : (i user : ℕ) → IsAtomic (mute_monitor i user)
unfolding mute_monitor
mute-IsAtomic i user = flag-IsAtomic _ _ _

unmute-IsAtomic : (i user : ℕ) → IsAtomic (unmute_monitor i user)
unfolding unmute_monitor
unmute-IsAtomic i user = flag-IsAtomic _ _ _

module _ (z : Zones) (parse_addr : String → Option String) (i user : ℕ) (now : Instant) where
  -- A ping, a tick of the scheduler, the recording of a probe, the failing of an alert, a pause, a
  -- mute, an unmute, a resume and a PATCH are one transaction each: a failure of the driver at any
  -- statement, the beginning and the commit included, leaves the tables as they were, and otherwise
  -- the result and the tables are those of a run without faults.
  pub transactions-IsAtomic :
      ((p : RecordCheckinParams) → IsAtomic (record_checkin z parse_addr p))
      × ((limit : ℕ) (locked : ℕ → Bool) → IsAtomic (evaluate_due_monitors now limit locked))
      × ((o : ProbeOutcome) → IsAtomic (record_probe_result now o))
      × ((reason : String) → IsAtomic (fail_alert i user reason))
      × IsAtomic (pause_monitor i user)
      × IsAtomic (mute_monitor i user)
      × IsAtomic (unmute_monitor i user)
      × IsAtomic (resume_monitor z i user now)
      × ((p : UpdateMonitorParams) → IsAtomic (update_monitor i user p))
  transactions-IsAtomic = (
    record_checkin-IsAtomic z parse_addr,
    evaluate-IsAtomic now,
    record_probe_result-IsAtomic now,
    fail_alert-IsAtomic i user,
    pause-IsAtomic i user,
    mute-IsAtomic i user,
    unmute-IsAtomic i user,
    resume-IsAtomic z i user now,
    update-IsAtomic i user,
  )
