-- ===== src/Worker/Alerter.antt =====
-- backend/worker/alerter/alerter.go: the dispatch of the outbox. The world has the connection, the
-- clock by number of readings, what the channel answers by number of sends, and the messages that
-- the channel was given. Send's own time limit is one of the channel's failures.
pub mod Delivery
pub mod Settling
pub mod Life
pub mod Sends
pub mod Outbox
mod Examples
use Prim.Native.String
use ping.Prelude.{
  ℕ, zero, suc, ◌+◌, ◌*◌, String, Bool, true, false, ◌&&◌, ◌||◌, Option, none, some, List, [], ◌∷◌,
  ◌++◌, length, ltb, if◌then◌else◌,
}
use ping.Prelude.Int.{pos}
use ping.Schedule.{Instant, Duration, second}
use ping.Schedule.Text.{is_empty}
use ping.Db.{EventType}
use ping.Db.Result.{Result, ok, err}
use ping.Alert.{
  NotificationKind, Notification, Message, SendFailure, is_retryable, down, up, reminder,
  tls_expiry,
}
use ping.Store.{Conn, Op}
use ping.Store.Alerter.{
  AlertJob, claim_due_alerts, mark_alert_sent, suppress_alert, reschedule_alert, fail_alert,
  resolve_downtime, enqueue_down_reminders,
}

pub record World : Type 0 where
  pub conn : Conn
  pub clock : ℕ → Instant
  pub readings : ℕ
  pub answer : ℕ → Option SendFailure
  pub outgoing : List Message

abbrev pub claim_limit : ℕ
claim_limit = 100

abbrev pub max_attempts : ℕ
max_attempts = 3

abbrev pub base_backoff : ℕ
base_backoff = 60 * second

abbrev pub backoff_mult : ℕ
backoff_mult = 5

-- The delay before the next attempt, after this number of attempts.
pub backoff : ℕ → ℕ
backoff zero = base_backoff
backoff (suc n) = backoff n * backoff_mult

-- A statement of the store.
unfoldable pub perform : {A : Type 0} → Op A → World → Result A × World
perform m w = let r = m w.conn in (r.0, record w { conn = r.1 })

-- A statement whose failure is logged and no more.
unfoldable pub attempt : {A : Type 0} → Op A → World → World
unfolding perform
attempt m w = (perform m w).1

-- A reading of the clock.
unfoldable pub now : World → Instant × World
now w = (w.clock w.readings, record w { readings = w.readings + 1 })

-- The channel is given a message.
unfoldable pub send : Message → World → Option SendFailure × World
send m w = (w.answer (length w.outgoing), record w { outgoing = w.outgoing ++ m ∷ [] })

unfoldable pub fail : AlertJob → String → World → World
unfolding attempt
fail job reason w = attempt (fail_alert job.id job.monitor_id reason) w

abbrev dashboard_url : String → String → String
dashboard_url base_url slug =
    if is_empty base_url || is_empty slug
    then ""
    else String.◌++◌ base_url (String.◌++◌ "/monitors/" slug)

abbrev notification : String → AlertJob → NotificationKind → Duration → Instant → Notification
notification base_url job kind downtime tls_expires_at = record {
  kind = kind;
  monitor_name = job.monitor_name;
  monitor_slug = job.monitor_slug;
  at = job.event_at;
  downtime = downtime;
  tls_expires_at = tls_expires_at;
  dashboard_url = dashboard_url base_url job.monitor_slug;
}

abbrev expiry_or_zero : Option Instant → Instant
expiry_or_zero none = 0
expiry_or_zero (some t) = t

-- The kinds of notification, and what a reminder and a recovery need of the timeline.
abbrev pub with_downtime :
    String → AlertJob → NotificationKind → Result Duration × World → Result Notification × World
with_downtime base_url job kind (ok d, w) = (ok (notification base_url job kind d 0), w)
with_downtime base_url job kind (err e, w) = (err e, w)

pub render_event : String → AlertJob → EventType → World → Result Notification × World
unfolding perform
render_event base_url job EventType.up w =
    with_downtime base_url job up (perform (resolve_downtime job.monitor_id job.event_at) w)
render_event base_url job EventType.tls_expiry w =
    (ok (notification base_url job tls_expiry (pos 0) (expiry_or_zero job.tls_expires_at)), w)
render_event base_url job _ w = (ok (notification base_url job down (pos 0) 0), w)

unfoldable pub render : String → AlertJob → World → Result Notification × World
unfolding render_event now
render base_url job w =
    if job.is_reminder
    then (let (t, w') = now w in
        with_downtime base_url job reminder (perform (resolve_downtime job.monitor_id t) w'))
    else render_event base_url job job.event_type w

-- After a failed send: back off, or fail.
unfoldable pub retry_or_fail : AlertJob → SendFailure → World → World
unfolding fail now backoff
retry_or_fail job e w =
    if is_retryable e && ltb (job.attempts + 1) max_attempts
    then (let (t, w') = now w in attempt (reschedule_alert job.id (t + backoff job.attempts)) w')
    else fail job "mail server rejected the message" w

unfoldable pub after_send : AlertJob → Option SendFailure → World → World
unfolding retry_or_fail
after_send job none w = attempt (mark_alert_sent job.id) w
after_send job (some e) w = retry_or_fail job e w

unfoldable pub after_render : AlertJob → Result Notification → World → World
unfolding after_send send
after_render job (ok n) w =
    let (answer, w') = send (record { to = job.recipient; notification = n }) w in
    after_send job answer w'
after_render job (err e) w = fail job "could not build notification" w

-- `has_channel` says whether a channel was given.
unfoldable pub dispatch : Bool → String → AlertJob → World → World
unfolding after_render render
dispatch has_channel base_url job w =
    if job.alerts_muted
    then attempt (suppress_alert job.id) w
    else if has_channel
    then (let (r, w') = render base_url job w in after_render job r w')
    else fail job "email delivery is not configured" w

-- The loop over the claimed jobs; the n-th look at the context says whether it is cancelled.
unfoldable pub dispatch_all : (ℕ → Bool) → Bool → String → ℕ → List AlertJob → World → World
dispatch_all cancelled has_channel base_url n [] w = w
dispatch_all cancelled has_channel base_url n (job ∷ jobs) w =
    let rest = dispatch_all cancelled has_channel base_url (n + 1) jobs in
    if cancelled n then w else rest (dispatch has_channel base_url job w)

abbrev pub dispatch_claimed : (ℕ → Bool) → Bool → String → Result (List AlertJob) × World → World
dispatch_claimed cancelled has_channel base_url (ok jobs, w) =
    dispatch_all cancelled has_channel base_url 0 jobs w
dispatch_claimed cancelled has_channel base_url (err e, w) = w

unfoldable pub tick : (ℕ → Bool) → Bool → String → (ℕ → Bool) → World → World
unfolding dispatch_all
tick cancelled has_channel base_url locked w =
    let (t₁, w₁) = now w in
    let w₂ = attempt (enqueue_down_reminders t₁) w₁ in
    let (t₂, w₃) = now w₂ in
    dispatch_claimed cancelled has_channel base_url
      (perform (claim_due_alerts t₂ claim_limit locked) w₃)
