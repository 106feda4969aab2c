-- ===== src/System.antt =====
-- The backend as a whole: the ingest, the workers and the handlers of monitors meet in the tables
-- only, so a history is a sequence of their operations, each with the statements that fail in it.
pub mod Outbox
pub mod Atomic
mod Examples
use ping.Prelude.{ℕ, String, Bool, Option, List, [], ◌∷◌}
use ping.Prelude.Int.{ℤ}
use ping.Schedule.{Zones, Instant}
use ping.Db.{Db}
use ping.Store.{Conn}
use ping.Store.Checkin.{RecordCheckinParams, record_checkin}
use ping.Store.Scheduler.{evaluate_due_monitors}
use ping.Store.Prober.{ProbeOutcome, record_probe_result}
use ping.Store.Events.{pause_monitor, mute_monitor, unmute_monitor, resume_monitor}
use ping.Store.Monitors.{
  CreateMonitorParams, UpdateMonitorParams, Draw, create_monitor, update_monitor, delete_monitor,
}
use ping.Store.Rollup.{prune_old_data, prune_batch_limit}
use ping.Store.Rollup.Day.{Stats, rollup_day}
use ping.Worker.Alerter.{World, tick}

-- What the backend does, with what each operation is given from outside.
pub data Operation : Type 0 where
  -- Time passes: now() is later.
  wait : Instant → Operation
  check_in : Zones → (String → Option String) → RecordCheckinParams → Operation
  evaluate : Instant → ℕ → (ℕ → Bool) → Operation
  probe : Instant → ProbeOutcome → Operation
  alert : (ℕ → Bool) → Bool → String → (ℕ → Bool) → World → Operation
  pause mute unmute : ℕ → ℕ → Operation
  resume : Zones → ℕ → ℕ → Instant → Operation
  create : CreateMonitorParams → (ℕ → Draw) → Operation
  update : ℕ → ℕ → UpdateMonitorParams → Operation
  delete : ℕ → ℕ → Operation
  rollup : (ℕ → List ℤ → Option ℤ) → (Stats → Stats) → Instant → Operation
  prune : (ℕ → Bool) → ℕ → Instant → Operation

-- The tables after an operation on a connection.
abbrev pub after : Operation → Conn → Db
after (wait now) c = record c.db { now = now }
after (check_in z parse_addr p) c = (record_checkin z parse_addr p c).1.db
after (evaluate now limit locked) c = (evaluate_due_monitors now limit locked c).1.db
after (probe wall o) c = (record_probe_result wall o c).1.db
after (alert cancelled has_channel base_url locked w) c =
    (tick cancelled has_channel base_url locked (record w { conn = c })).conn.db
after (pause id user) c = (pause_monitor id user c).1.db
after (mute id user) c = (mute_monitor id user c).1.db
after (unmute id user) c = (unmute_monitor id user c).1.db
after (resume z id user now) c = (resume_monitor z id user now c).1.db
after (create p draw) c = (create_monitor p draw c).1.db
after (update id user p) c = (update_monitor id user p c).1.db
after (delete id user) c = (delete_monitor id user c).1.db
after (rollup percentile visit day) c = (rollup_day percentile visit day c).1.db
after (prune cancelled fuel cutoff) c =
    (prune_old_data cancelled prune_batch_limit fuel cutoff c).1.db

-- An operation and the statements that fail in it.
pub record Turn : Type 0 where
  pub operation : Operation
  pub fault : ℕ → Bool

abbrev pub turn : Turn → Db → Db
turn t db = after t.operation (record { db = db; fault = t.fault; step = 0 })

pub history : List Turn → Db → Db
history [] db = db
history (t ∷ ts) db = history ts (turn t db)
