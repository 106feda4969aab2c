-- ===== src/Store/Rollup/Day.antt =====
-- backend/store/rollup.go: the daily statistics. Go visits the entries of a map in an order of its
-- own, the parameter `visit`.
pub mod Merge
pub mod Upserts
pub mod Laws
mod Examples
use ping.Prelude.{ℕ, ◌+◌, ◌*◌, ◌/◌, Option, none, some, List, [], ◌∷◌, ◌==◌, if◌then◌else◌, length}
use ping.Prelude.Int.{ℤ}
use ping.Schedule.{Instant, hour}
use ping.Db.{Db}
use ping.Db.Stats.{
  CheckinCountsRow, ProbeStatsRow, DowntimeSecondsRow, rollup_checkin_counts, rollup_probe_stats,
  rollup_downtime_seconds, upsert_daily_stat,
}
use ping.Store.{Op, pure, ◌>>=◌, ◌>>◌, exec, query}

pub record Stat : Type 0 where
  pub checkins : ℕ
  pub failures : ℕ
  pub latency_p50 : Option ℤ
  pub latency_p95 : Option ℤ
  pub downtime_s : ℕ

abbrev pub zero_stat : Stat
zero_stat = record {
  checkins = 0;
  failures = 0;
  latency_p50 = none;
  latency_p95 = none;
  downtime_s = 0;
}

-- The map byMonitor.
abbrev pub Stats : Type 0
Stats = List (ℕ × Stat)

-- A write through the pointer that `get` answers: it creates the entry if there is none.
unfoldable pub alter : ℕ → (Stat → Stat) → Stats → Stats
alter i f [] = (i, f zero_stat) ∷ []
alter i f ((j, s) ∷ m) = if j == i then (j, f s) ∷ m else (j, s) ∷ alter i f m

-- A loop over the rows of a query, which writes to the entry of each.
unfoldable pub merge {ℓ} : {R : Type ℓ} → (R → ℕ) → (R → Stat → Stat) → List R → Stats → Stats
unfolding alter
merge id set [] m = m
merge id set (r ∷ rs) m = merge id set rs (alter (id r) (set r) m)

abbrev pub set_checkins : CheckinCountsRow → Stat → Stat
set_checkins r s = record s { checkins = r.checkins; failures = r.failures }

abbrev pub set_probes : ProbeStatsRow → Stat → Stat
set_probes r s = record s {
  checkins = r.checkins;
  failures = r.failures;
  latency_p50 = r.latency_p50;
  latency_p95 = r.latency_p95;
}

abbrev pub set_downtime : DowntimeSecondsRow → Stat → Stat
set_downtime r s = record s { downtime_s = r.downtime_s }

abbrev pub by_monitor : List CheckinCountsRow → List ProbeStatsRow → List DowntimeSecondsRow → Stats
by_monitor checkin_rows probe_rows downtime_rows =
    merge (λ r. r.monitor_id) set_downtime downtime_rows
      (merge (λ r. r.monitor_id) set_probes probe_rows
        (merge (λ r. r.monitor_id) set_checkins checkin_rows []))

-- The loop over the map.
unfoldable pub upsert_all : Instant → Stats → Op (Unit {0})
upsert_all day [] = pure tt
upsert_all day ((i, s) ∷ m) =
    exec (
      upsert_daily_stat (record {
        monitor_id = i;
        day = day;
        checkins = s.checkins;
        failures = s.failures;
        downtime_s = s.downtime_s;
        latency_p50 = s.latency_p50;
        latency_p95 = s.latency_p95;
      }))
    >> upsert_all day m

abbrev pub day_length : ℕ
day_length = 24 * hour

-- The midnight (UTC) that the day of an instant begins with.
abbrev pub midnight : Instant → Instant
midnight t = t / day_length * day_length

pub record RollupResult : Type 0 where
  pub monitors_updated : ℕ

module _ (percentile : ℕ → List ℤ → Option ℤ) (visit : Stats → Stats) where
  unfoldable pub rollup_day : Instant → Op RollupResult
  unfolding merge upsert_all
  rollup_day day = do
    let day_start = midnight day
    let day_end = day_start + day_length
    checkin_rows ← query (rollup_checkin_counts day_start day_end)
    probe_rows ← query (rollup_probe_stats percentile day_start day_end)
    downtime_rows ← query (rollup_downtime_seconds day_start day_end)
    let stats = by_monitor checkin_rows probe_rows downtime_rows
    upsert_all day_start (visit stats)
    pure (record { monitors_updated = length stats })
