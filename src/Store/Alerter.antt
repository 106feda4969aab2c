-- ===== src/Store/Alerter.antt =====
-- backend/store/alerter.go: the outbox as the alerter uses it. `locked` are the alerts that other
-- transactions hold.
pub mod Laws
use Prim.Native.String
use ping.Prelude.{ℕ, ◌-◌, String, Bool, Option, none, some, List, map, length, ◌==◌, if◌then◌else◌}
use ping.Prelude.Int.{ℤ, pos}
use ping.Schedule.{Instant, Duration}
use ping.Schedule.Text.{is_empty}
use ping.Db.{Db, State, Event, EventType, Meta, empty, tls_expires_at, fields, text}
use ping.Db.Result.{ok}
use ping.Db.Outbox
use ping.Db.Outbox.{ClaimDueAlertsRow, latest_down_event_before}
use ping.Store.{Op, pure, ◌>>=◌, ◌>>◌, exec, query, change, with_tx}
use ping.Store.Checkin.{record_event}

pub record AlertJob : Type 0 where
  pub id : ℕ
  pub monitor_id : ℕ
  pub event_id : ℕ
  pub recipient : String
  pub monitor_name : String
  pub monitor_slug : String
  pub monitor_state : State
  pub alerts_muted : Bool
  pub event_type : EventType
  pub is_reminder : Bool
  pub event_at : Instant
  pub tls_expires_at : Option Instant
  pub attempts : ℕ

abbrev pub decode_tls_expires_at : Meta → Option Instant
decode_tls_expires_at empty = none
decode_tls_expires_at (tls_expires_at t) = if t == 0 then none else some t
decode_tls_expires_at (fields _) = none

pub to_job : ClaimDueAlertsRow → AlertJob
to_job r = record {
  id = r.alert.id;
  monitor_id = r.alert.monitor_id;
  event_id = r.alert.event_id;
  recipient = r.recipient;
  monitor_name = r.monitor_name;
  monitor_slug = r.monitor_slug;
  monitor_state = r.monitor_state;
  alerts_muted = r.alerts_muted;
  event_type = r.event_type;
  is_reminder = r.alert.is_reminder;
  event_at = r.event_created_at;
  tls_expires_at = decode_tls_expires_at r.event_meta;
  attempts = r.alert.attempts;
}

unfoldable pub claim_due_alerts : Instant → ℕ → (ℕ → Bool) → Op (List AlertJob)
unfolding to_job
claim_due_alerts now limit locked =
    with_tx do rows ← query (Outbox.claim_due_alerts now limit locked); pure (map to_job rows)

unfoldable pub mark_alert_sent : ℕ → Op (Unit {0})
mark_alert_sent i = change (Outbox.mark_alert_sent i)

unfoldable pub suppress_alert : ℕ → Op (Unit {0})
suppress_alert i = change (Outbox.suppress_alert i)

unfoldable pub reschedule_alert : ℕ → Instant → Op (Unit {0})
reschedule_alert i next_attempt = change (Outbox.reschedule_alert i next_attempt)

pub alert_failure_message : String → String
alert_failure_message reason =
    if is_empty reason
    then "Alert delivery failed"
    else String.◌++◌ "Alert delivery failed: " reason

unfoldable pub fail_alert : ℕ → ℕ → String → Op (Unit {0})
unfolding alert_failure_message
fail_alert i monitor_id reason = with_tx do
  change (Outbox.mark_alert_failed i)
  record_event monitor_id EventType.alert_failed (text (alert_failure_message reason))
  pure tt

abbrev pub since : Instant → Option Event → Duration
since t none = pos 0
since t (some e) = pos (t - e.created_at)

unfoldable pub resolve_downtime : ℕ → Instant → Op Duration
resolve_downtime monitor_id recovered_at = do
  event ← query (latest_down_event_before monitor_id recovered_at)
  pure (since recovered_at event)

unfoldable pub enqueue_down_reminders : Instant → Op ℕ
enqueue_down_reminders now = with_tx (
    exec (λ db.
      let db' = Outbox.enqueue_down_reminders now db in
      ok (length db'.alerts - length db.alerts, db')))
