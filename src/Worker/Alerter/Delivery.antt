-- ===== src/Worker/Alerter/Delivery.antt =====
-- What the dispatch of an alert does to its row, when no statement fails for the driver's reason.
use ping.Prelude.{
  ℕ, zero, suc, ◌+◌, ◌*◌, ◌≤◌, ◌<◌, ◌≡◌, refl, ap, ◌∙◌, true, String, some, ltb, arith,
  update_where,
}
use ping.Schedule.{Instant, second}
use ping.Db.{failed, sent, Db, Alert, EventType, text, has_monitor}
use ping.Db.Result.{Result}
use ping.Db.Outbox
use ping.Db.Outbox.{has_alert_id, is_pending, latest_down_event_before}
use ping.Store.{Conn, Op, change}
use ping.Store.Tx.{Clean}
use ping.Store.Returns.{
  Returns, change-Returns, query-Returns, pure-Returns, >>=-Returns, with_tx-Returns, event-Returns,
}
use ping.Store.Alerter.{
  AlertJob, since, mark_alert_sent, suppress_alert, reschedule_alert, fail_alert,
  alert_failure_message, resolve_downtime,
}
use ping.Store.Alerter.Laws.{given_up}
use ping.Worker.Alerter.{World, max_attempts, backoff, perform, attempt, fail}

-- A change of the job's row that the dispatch may make: the alert leaves the outbox, or it stays
-- with one attempt more, fewer than three, and waits one or five minutes from a reading of the clock.
abbrev pub IsStep : (ℕ → Instant) → AlertJob → (Alert → Alert) → Type 0
IsStep clock job f =
    (a : Alert)
    → a.attempts ≡ job.attempts
    → is_pending (f a).status ≡ true
    → ((f a).attempts ≡ a.attempts + 1)
      × ((f a).attempts < 3)
      × ((k : ℕ) × (clock k + 60 * second ≤ (f a).next_attempt_at)
          × ((f a).next_attempt_at ≤ clock k + 300 * second))

-- The dispatch made one such change, with at most one message given to the channel.
pub record Settles (job : AlertJob) (w w' : World) : Type 0 where
  pub change_of : Alert → Alert
  pub changed : w'.conn.db.alerts ≡ update_where (has_alert_id job.id) change_of w.conn.db.alerts
  pub keeps_id : (a : Alert) → (change_of a).id ≡ a.id
  pub step : IsStep w.clock job change_of
  pub clean : Clean w'.conn
  pub same_clock : w'.clock ≡ w.clock
  pub same_monitors : w'.conn.db.monitors ≡ w.conn.db.monitors

module _ {A : Type 0} where
  -- An operation that returns, as a statement of the worker.
  attempt_lem :
      (m : Op A) (a : A) (w : World) (d' : Db)
      → Returns m w.conn.db a d'
      → Clean w.conn
      → ((attempt m w).conn.db ≡ d') × Clean (attempt m w).conn
  unfolding attempt perform
  attempt_lem m a w d' h k =
      let (c', p, q, clean) = h w.conn refl k in
      (
        ap (λ (r : Result A × Conn). r.1.db) p ∙ q,
        λ n. ap (λ (r : Result A × Conn). r.1.fault n) p ∙ clean n,
      )

fail_alert-Returns :
    (i monitor_id : ℕ) (reason : String) (d : Db)
    → has_monitor monitor_id d ≡ true
    → Returns (fail_alert i monitor_id reason) d tt (given_up i monitor_id reason d)
unfolding fail_alert Outbox.mark_alert_failed
fail_alert-Returns i monitor_id reason d here = with_tx-Returns _ d tt _ (
    >>=-Returns _ _ d tt _ tt _ (change-Returns _ d) (
      >>=-Returns _ _ _ _ _ tt _
        (event-Returns monitor_id EventType.alert_failed (text (alert_failure_message reason)) _
          here)
        (pure-Returns tt _)))

pub resolve-Returns :
    (i : ℕ) (t : Instant) (d : Db)
    → Returns (resolve_downtime i t) d (since t (latest_down_event_before i t d)) d
unfolding resolve_downtime
resolve-Returns i t d =
    >>=-Returns _ _ d (latest_down_event_before i t d) d _ d (query-Returns _ d) (pure-Returns _ d)

pub fail-Settles :
    (job : AlertJob) (reason : String) (w : World)
    → Clean w.conn
    → has_monitor job.monitor_id w.conn.db ≡ true
    → Settles job w (fail job reason w)
unfolding fail attempt perform Outbox.mark_alert_failed
fail-Settles job reason w k here =
    let (e, clean) =
      attempt_lem _ tt w _ (fail_alert-Returns job.id job.monitor_id reason w.conn.db here) k in
    record {
      change_of = λ a. record a { status = failed; attempts = a.attempts + 1 };
      changed = ap (λ (d : Db). d.alerts) e;
      keeps_id = λ a. refl;
      step = λ a p q. absurd (ground arith);
      clean = clean;
      same_clock = refl;
      same_monitors = ap (λ (d : Db). d.monitors) e;
    }

-- The change of one row, as a statement of its own.
change-Settles :
    (job : AlertJob) (g : Db → Db) (f : Alert → Alert) (w : World)
    → (g w.conn.db).alerts ≡ update_where (has_alert_id job.id) f w.conn.db.alerts
    → (g w.conn.db).monitors ≡ w.conn.db.monitors
    → ((a : Alert) → (f a).id ≡ a.id)
    → IsStep w.clock job f
    → Clean w.conn
    → Settles job w (attempt (change g) w)
unfolding attempt perform
change-Settles job g f w e m i s k =
    let (q, clean) = attempt_lem _ tt w _ (change-Returns g w.conn.db) k in
    record {
      change_of = f;
      changed = ap (λ (d : Db). d.alerts) q ∙ e;
      keeps_id = i;
      step = s;
      clean = clean;
      same_clock = refl;
      same_monitors = ap (λ (d : Db). d.monitors) q ∙ m;
    }

pub sent-Settles :
    (job : AlertJob) (w : World) → Clean w.conn → Settles job w (attempt (mark_alert_sent job.id) w)
unfolding mark_alert_sent Outbox.mark_alert_sent
sent-Settles job w k =
    change-Settles job _
      (λ a. record a { status = sent; sent_at = some w.conn.db.now; attempts = a.attempts + 1 }) w
      refl refl (λ a. refl) (λ a p q. absurd (ground arith)) k

pub suppressed-Settles :
    (job : AlertJob) (w : World) → Clean w.conn → Settles job w (attempt (suppress_alert job.id) w)
unfolding suppress_alert Outbox.suppress_alert
suppressed-Settles job w k =
    change-Settles job _ (λ a. record a { status = sent }) w refl refl (λ a. refl)
      (λ a p q. absurd (ground arith)) k

-- The two delays that are used.
backoff_window :
    (n : ℕ)
    → ltb (n + 1) max_attempts ≡ true
    → (60 * second ≤ backoff n) × (backoff n ≤ 300 * second)
unfolding backoff
backoff_window zero h = (omega arith, omega arith)
backoff_window (suc zero) h = (omega arith, omega arith)
backoff_window (suc (suc n)) h = absurd (ground arith)

pub rescheduled-Settles :
    (job : AlertJob) (w : World) (k : ℕ)
    → ltb (job.attempts + 1) max_attempts ≡ true
    → Clean w.conn
    → Settles job w (attempt (reschedule_alert job.id (w.clock k + backoff job.attempts)) w)
unfolding reschedule_alert Outbox.reschedule_alert
rescheduled-Settles job w k h clean =
    change-Settles job _
      (λ a. record a {
        attempts = a.attempts + 1;
        next_attempt_at = w.clock k + backoff job.attempts;
      })
      w refl refl (λ a. refl)
      (λ a p q.
        let (low, high) = backoff_window job.attempts h in
        (refl, ground arith, (k, omega (arith, low), omega (arith, high))))
      clean
