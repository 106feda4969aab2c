-- ===== src/Worker/Alerter/Outbox.antt =====
-- What a tick of the alerter keeps, whatever the channel answers.
use ping.Prelude.{
  ℕ, ◌+◌, ◌&&◌, Bool, true, false, String, Option, none, some, List, [], ◌∷◌, ltb, if◌then◌else◌,
}
use ping.Db.{EventType}
use ping.Db.Result.{Result, ok, err}
use ping.Alert.{SendFailure, NotificationKind, Notification, is_retryable}
use ping.Schedule.{Duration}
use ping.Store.Promise.{IsOutbox}
use ping.Store.Alerter.{AlertJob}
use ping.Store.Alerter.Laws.{
  mark_alert_sent-IsOutbox, suppress_alert-IsOutbox, reschedule_alert-IsOutbox, fail_alert-IsOutbox,
  claim-IsOutbox, enqueue-IsOutbox, resolve-IsOutbox,
}
use ping.Worker.Alerter.{
  World, claim_limit, max_attempts, perform, attempt, now, send, fail, with_downtime, render_event,
  render, retry_or_fail, after_send, after_render, dispatch, dispatch_all, dispatch_claimed, tick,
}

abbrev pub IsKept : World → Type 0
IsKept w = IsOutbox w.conn.db

either-IsKept : (b : Bool) (w w' : World) → IsKept w → IsKept w' → IsKept (if b then w else w')
either-IsKept true w w' o o' = o
either-IsKept false w w' o o' = o'

fail-IsKept : (job : AlertJob) (reason : String) (w : World) → IsKept w → IsKept (fail job reason w)
unfolding fail attempt perform
fail-IsKept job reason w o = fail_alert-IsOutbox job.id job.monitor_id reason w.conn o

with_downtime-IsKept :
    (base_url : String) (job : AlertJob) (kind : NotificationKind) (r : Result Duration × World)
    → IsKept r.1
    → IsKept (with_downtime base_url job kind r).1
with_downtime-IsKept base_url job kind (ok d, w) o = o
with_downtime-IsKept base_url job kind (err e, w) o = o

event-IsKept :
    (base_url : String) (job : AlertJob) (t : EventType) (w : World)
    → IsKept w
    → IsKept (render_event base_url job t w).1
unfolding render_event perform
event-IsKept base_url job EventType.up w o =
    with_downtime-IsKept base_url job NotificationKind.up _
      (resolve-IsOutbox job.monitor_id job.event_at w.conn o)
event-IsKept base_url job EventType.tls_expiry w o = o
event-IsKept base_url job EventType.down w o = o
event-IsKept base_url job EventType.late w o = o
event-IsKept base_url job EventType.alert_failed w o = o
event-IsKept base_url job EventType.config_change w o = o
event-IsKept base_url job EventType.pause w o = o
event-IsKept base_url job EventType.resume w o = o
event-IsKept base_url job EventType.mute w o = o
event-IsKept base_url job EventType.unmute w o = o

either_render-IsKept :
    (b : Bool) (r r' : Result Notification × World)
    → IsKept r.1
    → IsKept r'.1
    → IsKept (if b then r else r').1
either_render-IsKept true r r' o o' = o
either_render-IsKept false r r' o o' = o'

render-IsKept :
    (base_url : String) (job : AlertJob) (w : World) → IsKept w → IsKept (render base_url job w).1
unfolding render perform now
render-IsKept base_url job w o =
    either_render-IsKept job.is_reminder _ _
      (with_downtime-IsKept base_url job NotificationKind.reminder _
        (resolve-IsOutbox job.monitor_id (w.clock w.readings) w.conn o))
      (event-IsKept base_url job job.event_type w o)

retry-IsKept :
    (job : AlertJob) (e : SendFailure) (w : World) → IsKept w → IsKept (retry_or_fail job e w)
unfolding retry_or_fail attempt perform now
retry-IsKept job e w o =
    either-IsKept (is_retryable e && ltb (job.attempts + 1) max_attempts) _ _
      (reschedule_alert-IsOutbox job.id _ w.conn o)
      (fail-IsKept job "mail server rejected the message" w o)

after_send-IsKept :
    (job : AlertJob) (a : Option SendFailure) (w : World) → IsKept w → IsKept (after_send job a w)
unfolding after_send attempt perform
after_send-IsKept job none w o = mark_alert_sent-IsOutbox job.id w.conn o
after_send-IsKept job (some e) w o = retry-IsKept job e w o

after_render-IsKept :
    (job : AlertJob) (r : Result Notification) (w : World)
    → IsKept w
    → IsKept (after_render job r w)
unfolding after_render send
after_render-IsKept job (ok n) w o = after_send-IsKept job _ _ o
after_render-IsKept job (err e) w o = fail-IsKept job "could not build notification" w o

dispatch-IsKept :
    (has_channel : Bool) (base_url : String) (job : AlertJob) (w : World)
    → IsKept w
    → IsKept (dispatch has_channel base_url job w)
unfolding dispatch attempt perform
dispatch-IsKept has_channel base_url job w o =
    either-IsKept job.alerts_muted _ _ (suppress_alert-IsOutbox job.id w.conn o) (
      either-IsKept has_channel _ _
        (after_render-IsKept job (render base_url job w).0 (render base_url job w).1
          (render-IsKept base_url job w o))
        (fail-IsKept job "email delivery is not configured" w o))

all-IsKept :
    (cancelled : ℕ → Bool) (has_channel : Bool) (base_url : String) (n : ℕ) (jobs : List AlertJob)
    (w : World)
    → IsKept w
    → IsKept (dispatch_all cancelled has_channel base_url n jobs w)
unfolding dispatch_all
all-IsKept cancelled has_channel base_url n [] w o = o
all-IsKept cancelled has_channel base_url n (job ∷ jobs) w o = either-IsKept (cancelled n) _ _ o (
    all-IsKept cancelled has_channel base_url (n + 1) jobs _
      (dispatch-IsKept has_channel base_url job w o))

claimed-IsKept :
    (cancelled : ℕ → Bool) (has_channel : Bool) (base_url : String)
    (r : Result (List AlertJob) × World)
    → IsKept r.1
    → IsKept (dispatch_claimed cancelled has_channel base_url r)
claimed-IsKept cancelled has_channel base_url (ok jobs, w) o =
    all-IsKept cancelled has_channel base_url 0 jobs w o
claimed-IsKept cancelled has_channel base_url (err e, w) o = o

-- A tick of the alerter keeps the promise of the outbox: whatever the channel answers, whatever
-- statements fail and wherever the context is cancelled, each event that owes a notification has
-- one alert, and no other alert but a reminder exists.
pub tick-IsOutbox :
    (cancelled : ℕ → Bool) (has_channel : Bool) (base_url : String) (locked : ℕ → Bool) (w : World)
    → IsOutbox w.conn.db
    → IsOutbox (tick cancelled has_channel base_url locked w).conn.db
unfolding tick attempt perform now
tick-IsOutbox cancelled has_channel base_url locked w o =
    claimed-IsKept cancelled has_channel base_url _
      (claim-IsOutbox _ claim_limit locked _ (enqueue-IsOutbox (w.clock w.readings) w.conn o))
