-- ===== src/Store/Checkin.antt =====
-- backend/store/checkin.go: the ingest of a ping. netip.ParseAddr is the parameter `parse_addr`.
pub mod Laws
pub mod Outcome
pub mod Total
mod Examples
use ping.Prelude.{true, false, ℕ, String, Bool, Option, none, some, if◌then◌else◌}
use ping.Prelude.Int.{ℤ, pos, scale, suc_int32}
use ping.Schedule.{
  Instant, Duration, second, Kind, other, Config, Zones, Occurrence, at, invalid, next_occurrence,
}
use ping.Schedule.Text.{is_empty}
use ping.Db.{
  Db, Monitor, MonitorKind, heartbeat, http, State, CheckinKind, success, start, fail, unknown,
  Event, EventType, Meta, empty, Message, text,
}
use ping.Db.Result.{
  Result, ok, err, Error, no_rows, not_found, unknown_checkin_kind, invalid_schedule,
}
use ping.Db.Monitors.{get_monitor_by_slug_for_update, update_monitor_on_checkin}
use ping.Db.Checkins.{insert_checkin}
use ping.Db.Outbox.{insert_event, insert_alert, default_channel}
use ping.Store.{
  of_result, missing_as_not_found, Op, pure, fail_with, ◌>>=◌, ◌>>◌, exec, change, with_tx,
}

pub record RecordCheckinParams : Type 0 where
  pub slug : String
  pub kind : CheckinKind
  pub source_ip : String
  pub user_agent : String
  pub body : String
  pub now : Instant

-- The transition "" is `none`.
pub record RecordCheckinResult : Type 0 where
  pub monitor_id : ℕ
  pub state : State
  pub transition : Option State
  pub next_deadline : Option Instant

abbrev pub text_or_null : String → Option String
text_or_null s = if is_empty s then none else some s

abbrev pub seconds_or_zero : Option ℤ → Duration
seconds_or_zero none = pos 0
seconds_or_zero (some s) = scale s second

abbrev pub string_or_empty : Option String → String
string_or_empty none = ""
string_or_empty (some s) = s

abbrev pub kind_or_empty : Option Kind → Kind
kind_or_empty none = other ""
kind_or_empty (some k) = k

unfoldable pub schedule_config : Monitor → Config
schedule_config m = record {
  kind = kind_or_empty m.schedule_kind;
  period = seconds_or_zero m.period_s;
  cron_expr = string_or_empty m.cron_expr;
  tz = m.tz;
  grace = seconds_or_zero m.grace_s;
}

abbrev pub deadline_of : Occurrence → Result (Option Instant)
deadline_of (at t) = ok (some t)
deadline_of (invalid e) = err (invalid_schedule e)

-- The guard of nextDeadlineFor: other monitors have no deadline.
abbrev pub is_scheduled : MonitorKind → Option Kind → Bool
is_scheduled heartbeat (some k) = true
is_scheduled _ _ = false

unfoldable pub next_deadline_for : Zones → Monitor → Instant → Result (Option Instant)
next_deadline_for z m now =
    if is_scheduled m.kind m.schedule_kind
    then deadline_of (next_occurrence z (schedule_config m) now now)
    else ok none

unfoldable pub record_event_meta : ℕ → EventType → Message → Meta → Op Event
record_event_meta monitor_id type message meta = exec (insert_event monitor_id type message meta)

unfoldable pub record_event : ℕ → EventType → Message → Op Event
unfolding record_event_meta
record_event monitor_id type message = record_event_meta monitor_id type message empty

unfoldable pub record_transition : ℕ → EventType → Message → Op (Unit {0})
unfolding record_event
record_transition monitor_id type message = do
  event ← record_event monitor_id type message
  exec (insert_alert monitor_id event.id default_channel)
  pure tt

abbrev pub is_down : State → Bool
is_down State.down = true
is_down _ = false

abbrev pub applied : ℕ → State → Option State → Option Instant → RecordCheckinResult
applied i state transition next_deadline = record {
  monitor_id = i;
  state = state;
  transition = transition;
  next_deadline = next_deadline;
}

unfoldable pub apply_success : Zones → Monitor → Instant → Op RecordCheckinResult
unfolding next_deadline_for record_transition
apply_success z m now = do
  next_deadline ← of_result (next_deadline_for z m now)
  change (update_monitor_on_checkin m.id State.up (some now) next_deadline (pos 0))
  if is_down m.state
      then record_transition m.id EventType.up (text "Monitor recovered")
        >> pure (applied m.id State.up (some State.up) next_deadline)
      else pure (applied m.id State.up none next_deadline)

unfoldable pub apply_fail : Monitor → Instant → Op RecordCheckinResult
unfolding record_transition
apply_fail m now = do
  change (update_monitor_on_checkin m.id State.down (some now) none (suc_int32 m.fail_streak))
  if is_down m.state
      then pure (applied m.id State.down none none)
      else record_transition m.id EventType.down (text "Monitor reported failure")
        >> pure (applied m.id State.down (some State.down) none)

unfoldable pub parse_source_ip : (String → Option String) → String → Option String
parse_source_ip parse_addr ip = if is_empty ip then none else parse_addr ip

-- The switch on the kind of the ping.
unfoldable pub apply_kind : Zones → CheckinKind → Monitor → Instant → Op RecordCheckinResult
unfolding apply_success apply_fail
apply_kind z start m now = pure (applied m.id m.state none none)
apply_kind z success m now = apply_success z m now
apply_kind z fail m now = apply_fail m now
apply_kind z (unknown _) m now = fail_with unknown_checkin_kind

unfoldable pub record_checkin :
    Zones → (String → Option String) → RecordCheckinParams → Op RecordCheckinResult
unfolding apply_kind parse_source_ip
record_checkin z parse_addr p = with_tx do
  m ← missing_as_not_found (exec (get_monitor_by_slug_for_update p.slug))
  exec (
      insert_checkin m.id p.kind (parse_source_ip parse_addr p.source_ip)
        (text_or_null p.user_agent) (text_or_null p.body))
  apply_kind z p.kind m p.now
