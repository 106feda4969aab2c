-- ===== src/Store/Prober.antt =====
-- backend/store/prober.go: how the outcome of a probe is recorded. The monitor's id is parsed
-- already; `wall` is time.Now().
pub mod Confirm
pub mod Laws
pub mod Writes
pub mod Outcome
mod Examples
use Prim.Native.String
use ping.Prelude.{
  ℕ, suc, ◌+◌, ◌-◌, ◌*◌, ◌%◌, String, Bool, true, false, not, ◌&&◌, ◌||◌, Option, none, some, ltb,
  ◌==◌, if◌then◌else◌,
}
use ping.Prelude.Int.{ℤ, pos, negsuc, ltb_ℤ, suc_int32}
use ping.Schedule.{Instant, second, hour}
use ping.Schedule.Text.{is_empty}
use ping.Db.{
  Db, Monitor, State, EventType, Message, text, tls_certificate_expires, Meta, tls_expires_at,
}
use ping.Db.Probes.{insert_probe_result, update_monitor_on_probe, set_tls_warned_expiry}
use ping.Db.Outbox.{insert_alert, default_channel}
use ping.Store.{Op, pure, ◌>>=◌, ◌>>◌, exec, change, with_tx}
use ping.Store.Checkin.{text_or_null, record_event_meta, record_transition}

-- The prior state "" is `none`.
pub record ProbeOutcome : Type 0 where
  pub monitor_id : ℕ
  pub succeeded : Bool
  pub http_status : Option ℤ
  pub latency_ms : Option ℤ
  pub error : String
  pub tls_expiry : Option Instant
  pub fail_threshold : ℤ
  pub prior_state : Option State
  pub prior_fail_streak : ℤ
  pub prior_tls_warned : Option Instant
  pub next_probe_at : Instant
  pub now : Instant

pub record RecordProbeResultResult : Type 0 where
  pub state : State
  pub transition : Option State

abbrev pub tls_warning_window : ℕ
tls_warning_window = 14 * 24 * hour

-- The threshold with its default.
abbrev pub threshold_of : ℤ → ℤ
threshold_of k = if ltb_ℤ (pos 0) k then k else pos 2

abbrev pub state_or_up : Option State → State
state_or_up none = State.up
state_or_up (some s) = s

unfoldable pub next_probe_state : ProbeOutcome → State × ℤ
next_probe_state o =
    let streak = suc_int32 o.prior_fail_streak in
    if o.succeeded
    then (State.up, pos 0)
    else if ltb_ℤ streak (threshold_of o.fail_threshold)
    then (state_or_up o.prior_state, streak)
    else (State.down, streak)

pub probe_failure_message : String → String
probe_failure_message error =
    if is_empty error
    then "Monitor failed its probe"
    else String.◌++◌ "Monitor failed its probe: " error

abbrev pub was_down : Option State → Bool
was_down (some State.down) = true
was_down _ = false

abbrev pub truncate_second : Instant → Instant
truncate_second t = t - t % second

abbrev is_same_expiry : Option Instant → Instant → Bool
is_same_expiry none t = false
is_same_expiry (some w) t = truncate_second w == truncate_second t

-- The guards of maybeWarnTLSExpiry, for a certificate that expires at `t`.
unfoldable pub owes_warning : Instant → ProbeOutcome → Instant → Bool
owes_warning wall o t =
    let now = if o.now == 0 then wall else o.now in
    not (ltb (now + tls_warning_window) t) && not (is_same_expiry o.prior_tls_warned t)

unfoldable pub warn : ℕ → Instant → Op (Unit {0})
warn i t = do
  event ← record_event_meta i EventType.tls_expiry (tls_certificate_expires t) (tls_expires_at t)
  exec (insert_alert i event.id default_channel)
  change (set_tls_warned_expiry i (some t))

unfoldable pub maybe_warn_tls_expiry : Instant → ProbeOutcome → Option Instant → Op (Unit {0})
unfolding warn
maybe_warn_tls_expiry wall o none = pure tt
maybe_warn_tls_expiry wall o (some t) =
    if owes_warning wall o t then warn o.monitor_id t else pure tt

-- The switch on the new and the prior state.
unfoldable pub probe_transition : ProbeOutcome → State → Op (Option State)
unfolding probe_failure_message
probe_transition o State.down =
    if was_down o.prior_state
    then pure none
    else record_transition o.monitor_id EventType.down (text (probe_failure_message o.error))
      >> pure (some State.down)
probe_transition o State.up =
    if was_down o.prior_state
    then record_transition o.monitor_id EventType.up (text "Monitor recovered")
      >> pure (some State.up)
    else pure none
probe_transition o _ = pure none

unfoldable pub record_probe_result : Instant → ProbeOutcome → Op RecordProbeResultResult
unfolding maybe_warn_tls_expiry probe_transition
record_probe_result wall o = with_tx do
  exec (
      insert_probe_result o.monitor_id o.succeeded o.http_status o.latency_ms (text_or_null o.error)
        o.tls_expiry)
  let (state, streak) = next_probe_state o
  change (update_monitor_on_probe o.monitor_id state streak (some o.next_probe_at))
  transition ← probe_transition o state
  maybe_warn_tls_expiry wall o o.tls_expiry
  pure (record { state = state; transition = transition })
