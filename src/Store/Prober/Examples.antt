-- ===== src/Store/Prober/Examples.antt =====
-- A site that stays unreachable: the probe that takes it down, and its expiring certificate.
use ping.Prelude.{
  arith, ◌+◌, ◌*◌, ◌≡◌, refl, true, false, Option, none, some, find, select, update_where, length,
  [], ◌∷◌, if◌then◌else◌, leb,
}
use ping.Prelude.Int.{pos}
use ping.Schedule.{hour}
use ping.Db.{Monitor, State, has_id}
use ping.Db.Result.{ok}
use ping.Db.Probes.{insert_probe_result, update_monitor_on_probe, set_tls_warned_expiry}
use ping.Db.Outbox.{insert_event, insert_alert}
use ping.Db.Samples.{backup, quiet}
use ping.Store.{Conn, calm, run, with_tx, ◌>>=◌, exec}
use ping.Store.Checkin.{record_transition}
use ping.Store.Checkin.Outcome.{transition_of}
use ping.Store.Prober.{
  ProbeOutcome, RecordProbeResultResult, record_probe_result, next_probe_state, owes_warning,
}
use ping.Store.Prober.Confirm.{history, trailing, history_lem}
use ping.Store.Prober.Writes.{count, warns}
use ping.Store.Prober.Outcome.{record_probe_result_writes, tls_warned_once}

abbrev unreachable : ProbeOutcome
unreachable = record {
  monitor_id = 3;
  succeeded = false;
  http_status = some (pos 503);
  latency_ms = some (pos 80);
  error = "unexpected status 503";
  tls_expiry = some (200 * hour);
  fail_threshold = pos 2;
  prior_state = some State.up;
  prior_fail_streak = pos 1;
  prior_tls_warned = none;
  next_probe_at = 102 * hour;
  now = 101 * hour;
}

abbrev went_down : RecordProbeResultResult
went_down = record { state = State.down; transition = some State.down }

machine : Unit {0}
unfolding record_probe_result with_tx exec ◌>>=◌ next_probe_state owes_warning insert_probe_result
    update_monitor_on_probe set_tls_warned_expiry insert_event insert_alert find select update_where
    run record_transition
machine = tt

abbrev after : Conn
after = (record_probe_result (101 * hour) unreachable (calm quiet)).1

unreachable_answer :
    record_probe_result (101 * hour) unreachable (calm quiet) ≡ (ok went_down, after)
unfolding machine
unreachable_answer = refl

record_probe_result_writes_example :
    (some State.down ≡ transition_of State.up State.down)
    × (length after.db.events
        ≡ length quiet.events + 1 + count (warns (101 * hour) unreachable (some (200 * hour))))
    × (length after.db.alerts
        ≡ length quiet.alerts + 1 + count (warns (101 * hour) unreachable (some (200 * hour))))
record_probe_result_writes_example =
    record_probe_result_writes (101 * hour) unreachable (calm quiet) after went_down
      unreachable_answer

-- The site as the probe leaves it, and the next probe of it, a day later.
abbrev found_site : Option Monitor
found_site = find (has_id 3) after.db.monitors

abbrev again : ProbeOutcome
again = record unreachable {
  prior_state = some State.down;
  prior_tls_warned = some (200 * hour);
  now = 125 * hour;
}

abbrev or_backup : Option Monitor → Monitor
or_backup none = backup
or_backup (some m) = m

found : find (has_id 3) after.db.monitors ≡ some (or_backup found_site)
unfolding machine
found = refl

owed : owes_warning (101 * hour) unreachable (200 * hour) ≡ true
unfolding machine
owed = refl

warned_of : some (200 * hour) ≡ (or_backup found_site).tls_warned_expires_at
unfolding machine
warned_of = refl

tls_warned_once_example : owes_warning (125 * hour) again (200 * hour + 5) ≡ false
tls_warned_once_example =
    tls_warned_once (101 * hour) unreachable (calm quiet) after went_down (200 * hour)
      (or_backup found_site) unreachable_answer refl owed found (125 * hour) again (200 * hour + 5)
      warned_of refl

history_lem_example : history unreachable (false ∷ false ∷ true ∷ false ∷ []) ≡ (
  if leb 2 (trailing (false ∷ false ∷ true ∷ false ∷ [])) then State.down else State.up,
  pos (trailing (false ∷ false ∷ true ∷ false ∷ [])),
)
history_lem_example =
    history_lem unreachable 1 (false ∷ false ∷ true ∷ false ∷ []) refl (omega arith)
