-- ===== src/Db/Probes.antt =====
-- backend/db/probe_results.sql.go: the statements of the prober.
use ping.Prelude.{ℕ, ◌+◌, String, Bool, Option, [], ◌∷◌, ◌++◌, if◌then◌else◌}
use ping.Prelude.Int.{ℤ}
use ping.Schedule.{Instant}
use ping.Db.{Db, State, ProbeResult, has_monitor}
use ping.Db.Monitors.{set_monitor}
use ping.Db.Result.{Result, ok, err, foreign_key_violation}

unfoldable pub insert_probe_result :
    ℕ → Bool → Option ℤ → Option ℤ → Option String → Option Instant → Db → Result (ProbeResult × Db)
insert_probe_result monitor_id succeeded http_status latency_ms error tls_expires_at db =
    let row : ProbeResult = record {
      id = db.next_probe_id;
      monitor_id = monitor_id;
      ok = succeeded;
      http_status = http_status;
      latency_ms = latency_ms;
      error = error;
      tls_expires_at = tls_expires_at;
      created_at = db.now;
    } in
    if has_monitor monitor_id db
    then ok (
      row,
      record db {
        probe_results = db.probe_results ++ row ∷ [];
        next_probe_id = db.next_probe_id + 1;
      },
    )
    else err foreign_key_violation

unfoldable pub update_monitor_on_probe : ℕ → State → ℤ → Option Instant → Db → Db
update_monitor_on_probe i state fail_streak next_probe_at db =
    set_monitor i
      (λ m. record m {
        state = state;
        fail_streak = fail_streak;
        next_probe_at = next_probe_at;
        updated_at = db.now;
      })
      db

unfoldable pub set_tls_warned_expiry : ℕ → Option Instant → Db → Db
set_tls_warned_expiry i tls_expires_at =
    set_monitor i (λ m. record m { tls_warned_expires_at = tls_expires_at })
