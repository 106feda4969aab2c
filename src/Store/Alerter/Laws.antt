-- ===== src/Store/Alerter/Laws.antt =====
-- What the alerter's statements do to the outbox.
use ping.Prelude.{
  ℕ, ◌≡◌, refl, ap, ◌∙◌, inl, inr, Bool, String, Option, none, some, List, [], ◌∷◌, map, Bool-cases,
  arith, select,
}
use ping.Schedule.{Instant}
use ping.Db.{Db, Monitor, Alert, Event, EventType, text, empty}
use ping.Db.Outbox
use ping.Db.Outbox.{remind_all, remind_of, wants_reminder, latest, is_down_of}
use ping.Store.{Conn, query}
use ping.Store.Steps.{
  Ensures, weaken, pure-Ensures, exec-Ensures, change-Ensures, query-Ensures, >>=-Ensures,
  with_tx-Ensures,
}
use ping.Store.Tx.{
  IsAtomic, with_tx-IsAtomic, >>=-Faithful, exec-Faithful, pure-Faithful, with_tx-keeps,
  change-keeps, query-keeps, >>=-pure-keeps,
}
use ping.Store.Timeline.{noted, event-Ensures, event-Faithful}
use ping.Store.Promise.{IsOutbox, noted-IsOutbox, set_alerts-IsOutbox, reminded-IsOutbox}
use ping.Store.Alerter.{
  since, to_job, claim_due_alerts, mark_alert_sent, suppress_alert, reschedule_alert, fail_alert,
  alert_failure_message, resolve_downtime, enqueue_down_reminders,
}

sent-IsOutbox : (i : ℕ) (d : Db) → IsOutbox d → IsOutbox (Outbox.mark_alert_sent i d)
unfolding Outbox.mark_alert_sent
sent-IsOutbox i d o = set_alerts-IsOutbox _ _ (λ a. refl) (λ a. refl) o

suppressed-IsOutbox : (i : ℕ) (d : Db) → IsOutbox d → IsOutbox (Outbox.suppress_alert i d)
unfolding Outbox.suppress_alert
suppressed-IsOutbox i d o = set_alerts-IsOutbox _ _ (λ a. refl) (λ a. refl) o

rescheduled-IsOutbox :
    (i : ℕ) (t : Instant) (d : Db) → IsOutbox d → IsOutbox (Outbox.reschedule_alert i t d)
unfolding Outbox.reschedule_alert
rescheduled-IsOutbox i t d o = set_alerts-IsOutbox _ _ (λ a. refl) (λ a. refl) o

failed-IsOutbox : (i : ℕ) (d : Db) → IsOutbox d → IsOutbox (Outbox.mark_alert_failed i d)
unfolding Outbox.mark_alert_failed
failed-IsOutbox i d o = set_alerts-IsOutbox _ _ (λ a. refl) (λ a. refl) o

remind_of-IsOutbox : (i : ℕ) (e : Option Event) (d : Db) → IsOutbox d → IsOutbox (remind_of i e d)
remind_of-IsOutbox i none d o = o
remind_of-IsOutbox i (some e) d o = reminded-IsOutbox _ refl o

remind_all-IsOutbox :
    (now : Instant) (seen : List Alert) (ms : List Monitor) (d : Db)
    → IsOutbox d
    → IsOutbox (remind_all now seen ms d)
unfolding remind_all
remind_all-IsOutbox now seen [] d o = o
remind_all-IsOutbox now seen (m ∷ ms) d o = elim (Bool-cases (wants_reminder now m seen)) [
  | inl e ↦ rw e (
      remind_all-IsOutbox now seen ms _
        (remind_of-IsOutbox m.id (latest (select (is_down_of m.id) d.events)) d o))
  | inr e ↦ rw e (remind_all-IsOutbox now seen ms d o)
]

pub mark_alert_sent-IsOutbox :
    (i : ℕ) (c : Conn) → IsOutbox c.db → IsOutbox (mark_alert_sent i c).1.db
unfolding mark_alert_sent
mark_alert_sent-IsOutbox i = change-keeps IsOutbox _ (sent-IsOutbox i)

pub suppress_alert-IsOutbox :
    (i : ℕ) (c : Conn) → IsOutbox c.db → IsOutbox (suppress_alert i c).1.db
unfolding suppress_alert
suppress_alert-IsOutbox i = change-keeps IsOutbox _ (suppressed-IsOutbox i)

pub reschedule_alert-IsOutbox :
    (i : ℕ) (t : Instant) (c : Conn) → IsOutbox c.db → IsOutbox (reschedule_alert i t c).1.db
unfolding reschedule_alert
reschedule_alert-IsOutbox i t = change-keeps IsOutbox _ (rescheduled-IsOutbox i t)

-- The tables after a terminal failure.
abbrev pub given_up : ℕ → ℕ → String → Db → Db
given_up i monitor_id reason d =
    noted monitor_id EventType.alert_failed (text (alert_failure_message reason)) empty
      (Outbox.mark_alert_failed i d)

pub fail_alert-Ensures :
    (i monitor_id : ℕ) (reason : String)
    → Ensures (fail_alert i monitor_id reason) (λ d u d'. d' ≡ given_up i monitor_id reason d)
unfolding fail_alert
fail_alert-Ensures i monitor_id reason =
    weaken
      (with_tx-Ensures (
        >>=-Ensures (change-Ensures (Outbox.mark_alert_failed i)) (λ u.
          >>=-Ensures
            (event-Ensures monitor_id EventType.alert_failed (text (alert_failure_message reason)))
            (λ e. pure-Ensures tt))))
      (λ d u d' (_, d₁, p, (e, d₂, (_, q), (_, r))).
        r
        ∙ q
        ∙ ap (noted monitor_id EventType.alert_failed (text (alert_failure_message reason)) empty)
            p)

pub fail_alert-IsOutbox :
    (i monitor_id : ℕ) (reason : String) (c : Conn)
    → IsOutbox c.db
    → IsOutbox (fail_alert i monitor_id reason c).1.db
unfolding fail_alert
fail_alert-IsOutbox i monitor_id reason = with_tx-keeps IsOutbox _ (
    weaken (fail_alert-Ensures i monitor_id reason) (λ d u d' e o.
      rw e
        (noted-IsOutbox monitor_id EventType.alert_failed _ empty _ (failed-IsOutbox i d o) refl)))

-- An alert is failed and the failure noted on the timeline in one transaction: a failure of the
-- driver at any statement leaves the tables as they were, and otherwise the result and the tables
-- are those of a run without faults.
pub fail_alert-IsAtomic :
    (i monitor_id : ℕ) (reason : String) → IsAtomic (fail_alert i monitor_id reason)
unfolding fail_alert
fail_alert-IsAtomic i monitor_id reason = with_tx-IsAtomic (
    >>=-Faithful (exec-Faithful _)
      (λ u. >>=-Faithful (event-Faithful _ _ _) (λ e. pure-Faithful tt)))

pub claim-Ensures :
    (now : Instant) (limit : ℕ) (locked : ℕ → Bool)
    → Ensures
        (claim_due_alerts now limit locked)
        (λ d jobs d'. (jobs ≡ map to_job (Outbox.claim_due_alerts now limit locked d)) × (d' ≡ d))
unfolding claim_due_alerts
claim-Ensures now limit locked =
    weaken
      (with_tx-Ensures (
        >>=-Ensures (query-Ensures (Outbox.claim_due_alerts now limit locked))
          (λ rows. pure-Ensures (map to_job rows))))
      (λ d jobs d' (rows, d₁, (p, q), (a, b)). (a ∙ ap (map to_job) p, b ∙ q))

pub claim-IsOutbox :
    (now : Instant) (limit : ℕ) (locked : ℕ → Bool) (c : Conn)
    → IsOutbox c.db
    → IsOutbox (claim_due_alerts now limit locked c).1.db
unfolding claim_due_alerts
claim-IsOutbox now limit locked =
    with_tx-keeps IsOutbox _ (weaken (claim-Ensures now limit locked) (λ d r d' (p, q) o. rw q o))

pub enqueue-IsOutbox :
    (now : Instant) (c : Conn) → IsOutbox c.db → IsOutbox (enqueue_down_reminders now c).1.db
unfolding enqueue_down_reminders Outbox.enqueue_down_reminders
enqueue-IsOutbox now = with_tx-keeps IsOutbox _ (
    weaken (with_tx-Ensures (exec-Ensures _)) (λ d r d' e o.
      let same : d' ≡ remind_all now d.alerts d.monitors d = ground arith in
      rw same (remind_all-IsOutbox now d.alerts d.monitors d o)))

pub resolve-IsOutbox :
    (i : ℕ) (t : Instant) (c : Conn) → IsOutbox c.db → IsOutbox (resolve_downtime i t c).1.db
unfolding resolve_downtime
resolve-IsOutbox i t c o =
    >>=-pure-keeps IsOutbox (query (Outbox.latest_down_event_before i t)) (since t) c
      (query-keeps IsOutbox _ c o)
