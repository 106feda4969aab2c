-- ===== src/Worker/Alerter/Settling.antt =====
-- The whole dispatch: the rendering reads, and what follows it makes one change of the row.
use ping.Prelude.{
  ◌+◌, ◌≡◌, refl, ap, ◌∙◌, sym, ◌&&◌, Bool, true, false, String, Option, none, some, [], ◌∷◌, ◌++◌,
  ltb, length, arith, update_where, if◌then◌else◌,
}
use ping.Schedule.{Instant, Duration}
use ping.Db.{Db, EventType, has_monitor}
use ping.Db.Result.{Result, ok}
use ping.Db.Outbox.{has_alert_id}
use ping.Alert.{Message, SendFailure, NotificationKind, Notification, is_retryable}
use ping.Store.{Conn}
use ping.Store.Tx.{Clean}
use ping.Store.Alerter.{AlertJob, resolve_downtime}
use ping.Worker.Alerter.{
  World, max_attempts, perform, now, send, with_downtime, render_event, render, retry_or_fail,
  after_send, after_render, dispatch,
}
use ping.Worker.Alerter.Delivery.{
  Settles, sent-Settles, suppressed-Settles, rescheduled-Settles, fail-Settles, resolve-Returns,
}

-- A part of the dispatch that reads the tables and the clock.
record Same (w w' : World) : Type 0 where
  same_db : w'.conn.db ≡ w.conn.db
  clean : Clean w'.conn
  same_clock : w'.clock ≡ w.clock

after-Same : (job : AlertJob) (w w₁ w₂ : World) → Same w w₁ → Settles job w₁ w₂ → Settles job w w₂
after-Same job w w₁ w₂ s t = record {
  change_of = t.change_of;
  changed =
      t.changed
      ∙ ap (λ (d : Db). update_where (has_alert_id job.id) t.change_of d.alerts) s.same_db;
  keeps_id = t.keeps_id;
  step = λ a p q. rw (sym s.same_clock) (t.step a p q);
  clean = t.clean;
  same_clock = t.same_clock ∙ s.same_clock;
  same_monitors = t.same_monitors ∙ ap (λ (d : Db). d.monitors) s.same_db;
}

-- A rendering that gives a notification and changes nothing.
Renders : World → Result Notification × World → Type 0
Renders w r = (n : Notification) × (w' : World) × (r ≡ (ok n, w')) × Same w w'

downtime-Renders :
    (base_url : String) (job : AlertJob) (kind : NotificationKind) (t : Instant) (w : World)
    → Clean w.conn
    → Renders w (with_downtime base_url job kind (perform (resolve_downtime job.monitor_id t) w))
unfolding Renders perform
downtime-Renders base_url job kind t w k =
    let d = w.conn.db in
    let (c', p, q, clean) = resolve-Returns job.monitor_id t d w.conn refl k in
    let then_given : Result Duration × Conn → Result Notification × World =
      λ r. with_downtime base_url job kind (r.0, record w { conn = r.1 }) in
    (
      _,
      record w { conn = c' },
      ap then_given p,
      record { same_db = q; clean = clean; same_clock = refl },
    )

event-Renders :
    (base_url : String) (job : AlertJob) (t : EventType) (w : World)
    → Clean w.conn
    → Renders w (render_event base_url job t w)
unfolding Renders render_event
event-Renders base_url job EventType.up w k =
    downtime-Renders base_url job NotificationKind.up job.event_at w k
event-Renders base_url job EventType.tls_expiry w k =
    (_, w, refl, record { same_db = refl; clean = k; same_clock = refl })
event-Renders base_url job _ w k =
    (_, w, refl, record { same_db = refl; clean = k; same_clock = refl })

render-Renders :
    (base_url : String) (job : AlertJob) (w : World)
    → Clean w.conn
    → Renders w (render base_url job w)
unfolding render Renders now
render-Renders base_url job w k =
    either_render job.is_reminder _ _
      (let (n, w', e, s) =
          downtime-Renders base_url job NotificationKind.reminder (w.clock w.readings)
            (record w { readings = w.readings + 1 }) k in
        (n, w', e, record { same_db = s.same_db; clean = s.clean; same_clock = s.same_clock }))
      (event-Renders base_url job job.event_type w k)
  where
    either_render :
        (b : Bool) (r r' : Result Notification × World)
        → Renders w r
        → Renders w r'
        → Renders w (if b then r else r')
    either_render true r r' h h' = h
    either_render false r r' h h' = h'

either-Settles :
    (job : AlertJob) (w : World) (b : Bool) (w₁ w₂ : World)
    → (b ≡ true → Settles job w w₁)
    → Settles job w w₂
    → Settles job w (if b then w₁ else w₂)
either-Settles job w true w₁ w₂ h h' = h refl
either-Settles job w false w₁ w₂ h h' = h'

after_send-Settles :
    (job : AlertJob) (o : Option SendFailure) (w : World)
    → Clean w.conn
    → has_monitor job.monitor_id w.conn.db ≡ true
    → Settles job w (after_send job o w)
unfolding after_send retry_or_fail now
after_send-Settles job none w k here = sent-Settles job w k
after_send-Settles job (some e) w k here =
    either-Settles job w (is_retryable e && ltb (job.attempts + 1) max_attempts) _ _
      (λ h.
        let left : ltb (job.attempts + 1) max_attempts ≡ true = ground arith in
        let w₁ = record w { readings = w.readings + 1 } in
        after-Same job w w₁ _ (record { same_db = refl; clean = k; same_clock = refl })
          (rescheduled-Settles job w₁ w.readings left k))
      (fail-Settles job "mail server rejected the message" w k here)

after_render-Settles :
    (job : AlertJob) (w : World) (r : Result Notification × World)
    → Renders w r
    → has_monitor job.monitor_id w.conn.db ≡ true
    → Settles job w (after_render job r.0 r.1)
unfolding after_render send Renders
after_render-Settles job w r (n, w', e, s) here =
    let there : has_monitor job.monitor_id w'.conn.db ≡ true =
      ap (has_monitor job.monitor_id) s.same_db ∙ here in
    let m : Message = record { to = job.recipient; notification = n } in
    let w₁ = record w' { outgoing = w'.outgoing ++ m ∷ [] } in
    rw e (
      after-Same job w w₁ _
        (record { same_db = s.same_db; clean = s.clean; same_clock = s.same_clock })
        (after_send-Settles job (w'.answer (length w'.outgoing)) w₁ s.clean there))

pub dispatch-Settles :
    (has_channel : Bool) (base_url : String) (job : AlertJob) (w : World)
    → Clean w.conn
    → has_monitor job.monitor_id w.conn.db ≡ true
    → Settles job w (dispatch has_channel base_url job w)
unfolding dispatch
dispatch-Settles has_channel base_url job w k here =
    either-Settles job w job.alerts_muted _ _ (λ e. suppressed-Settles job w k)
      (either-Settles job w has_channel _ _
        (λ e.
          after_render-Settles job w (render base_url job w) (render-Renders base_url job w k) here)
        (fail-Settles job "email delivery is not configured" w k here))
