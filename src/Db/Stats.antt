-- ===== src/Db/Stats.antt =====
-- backend/db/daily_stats.sql.go: the statements of the nightly rollup. PERCENTILE_CONT with its
-- cast to an integer is the parameter `percentile`, of the hundredth and the values.
pub mod Groups
pub mod Rows
pub mod Sums
pub mod Downtime
mod Examples
use ping.Prelude.{
  ℕ, ◌+◌, ◌-◌, ◌*◌, ◌/◌, Bool, true, false, not, ◌&&◌, ◌||◌, Option, none, some, List, [], ◌∷◌,
  ◌++◌, map, select, find, length, is_some, ltb, leb, ◌==◌, if◌then◌else◌, update_where,
}
use ping.Prelude.Int.{ℤ}
use ping.Schedule.{Instant, second}
use ping.Db.{
  Db, Checkin, CheckinKind, fail, ProbeResult, Event, EventType, up, down, DailyStat, has_monitor,
}
use ping.Db.Result.{Result, ok, err, foreign_key_violation}
use ping.Db.Sort.{sort_by}

abbrev pub is_within : Instant → Instant → Instant → Bool
is_within day_start day_end t = leb day_start t && ltb t day_end

-- GROUP BY: the keys of the rows, each once.
unfoldable pub group_keys {ℓ} : {A : Type ℓ} → (A → ℕ) → List A → List ℕ
group_keys key [] = []
group_keys key (x ∷ xs) = key x ∷ select (λ j. not (j == key x)) (group_keys key xs)

pub record CheckinCountsRow : Type 0 where
  pub monitor_id : ℕ
  pub checkins : ℕ
  pub failures : ℕ

abbrev is_fail : CheckinKind → Bool
is_fail fail = true
is_fail _ = false

abbrev pub checkins_of : Instant → Instant → Db → List Checkin
checkins_of day_start day_end db =
    select (λ r. is_within day_start day_end r.created_at) db.checkins

abbrev pub checkin_counts : List Checkin → ℕ → CheckinCountsRow
checkin_counts rows i =
    let mine = select (λ r. r.monitor_id == i) rows in
    record {
      monitor_id = i;
      checkins = length mine;
      failures = length (select (λ r. is_fail r.kind) mine);
    }

unfoldable pub rollup_checkin_counts : Instant → Instant → Db → List CheckinCountsRow
rollup_checkin_counts day_start day_end db =
    let rows = checkins_of day_start day_end db in
    map (checkin_counts rows) (group_keys (λ r. r.monitor_id) rows)

pub record ProbeStatsRow : Type 0 where
  pub monitor_id : ℕ
  pub checkins : ℕ
  pub failures : ℕ
  pub latency_p50 : Option ℤ
  pub latency_p95 : Option ℤ

abbrev pub probes_of : Instant → Instant → Db → List ProbeResult
probes_of day_start day_end db =
    select (λ r. is_within day_start day_end r.created_at) db.probe_results

abbrev keep_some : Option ℤ → List ℤ → List ℤ
keep_some none vs = vs
keep_some (some v) vs = v ∷ vs

-- An aggregate passes NULL over.
pub latencies : List ProbeResult → List ℤ
latencies [] = []
latencies (r ∷ rs) = keep_some r.latency_ms (latencies rs)

module _ (percentile : ℕ → List ℤ → Option ℤ) where
  -- The LEFT JOIN: without a successful probe there is no row to take a percentile from.
  abbrev joined_percentile : ℕ → List ProbeResult → Option ℤ
  joined_percentile p [] = none
  joined_percentile p (r ∷ rs) = percentile p (latencies (r ∷ rs))

  abbrev pub probe_stats : List ProbeResult → ℕ → ProbeStatsRow
  probe_stats rows i =
      let mine = select (λ r. r.monitor_id == i) rows in
      let successes = select (λ r. r.ok) mine in
      record {
        monitor_id = i;
        checkins = length mine;
        failures = length (select (λ r. not r.ok) mine);
        latency_p50 = joined_percentile 50 successes;
        latency_p95 = joined_percentile 95 successes;
      }

  unfoldable pub rollup_probe_stats : Instant → Instant → Db → List ProbeStatsRow
  unfolding latencies
  rollup_probe_stats day_start day_end db =
      let rows = probes_of day_start day_end db in
      map (probe_stats rows) (group_keys (λ r. r.monitor_id) rows)

pub record DowntimeSecondsRow : Type 0 where
  pub monitor_id : ℕ
  pub downtime_s : ℕ

pub record Outage : Type 0 where
  pub down_at : Instant
  pub resolved_at : Instant

abbrev pub is_down_type : EventType → Bool
is_down_type down = true
is_down_type _ = false

abbrev pub is_up_type : EventType → Bool
is_up_type up = true
is_up_type _ = false

abbrev pub is_transition_of : Instant → ℕ → Event → Bool
is_transition_of day_end i e =
    e.monitor_id == i && (is_down_type e.type || is_up_type e.type) && ltb e.created_at day_end

-- The window of the monitor: its transitions before the end of the day, in the order of their time.
abbrev pub transitions : Instant → ℕ → Db → List Event
transitions day_end i db =
    sort_by (λ e. e.created_at) (select (is_transition_of day_end i) db.events)

-- LEAD: the time of the next transition if that is an `up`, and else the end of the day.
abbrev pub resolved_at : Instant → List Event → Instant
resolved_at day_end [] = day_end
resolved_at day_end (f ∷ fs) = if is_up_type f.type then f.created_at else day_end

unfoldable pub outages : Instant → List Event → List Outage
outages day_end [] = []
outages day_end (e ∷ es) =
    let rest = outages day_end es in
    if is_down_type e.type
    then record { down_at = e.created_at; resolved_at = resolved_at day_end es } ∷ rest
    else rest

abbrev pub min : ℕ → ℕ → ℕ
min a b = if leb a b then a else b

abbrev pub max : ℕ → ℕ → ℕ
max a b = if leb a b then b else a

-- GREATEST(0, …) of the part of the outage in the day.
abbrev pub overlap : Instant → Instant → Outage → ℕ
overlap day_start day_end o = min o.resolved_at day_end - max o.down_at day_start

abbrev pub touches : Instant → Instant → Outage → Bool
touches day_start day_end o = ltb day_start o.resolved_at && ltb o.down_at day_end

pub total_overlap : Instant → Instant → List Outage → ℕ
total_overlap day_start day_end [] = 0
total_overlap day_start day_end (o ∷ os) =
    overlap day_start day_end o + total_overlap day_start day_end os

-- The sum in nanoseconds, and the cast to an integer of seconds, which rounds.
unfoldable pub downtime : Instant → Instant → ℕ → Db → ℕ
unfolding outages total_overlap
downtime day_start day_end i db =
    total_overlap day_start day_end
      (select (touches day_start day_end) (outages day_end (transitions day_end i db)))

abbrev pub round_seconds : ℕ → ℕ
round_seconds ns = (ns + second / 2) / second

-- A monitor has a row if an outage of it touches the day.
unfoldable pub has_outage : Instant → Instant → Db → ℕ → Bool
unfolding outages
has_outage day_start day_end db i =
    is_some (find (touches day_start day_end) (outages day_end (transitions day_end i db)))

unfoldable pub rollup_downtime_seconds : Instant → Instant → Db → List DowntimeSecondsRow
unfolding downtime has_outage
rollup_downtime_seconds day_start day_end db =
    map
      (λ i. record { monitor_id = i; downtime_s = round_seconds (downtime day_start day_end i db) })
      (select (has_outage day_start day_end db) (group_keys (λ e. e.monitor_id) db.events))

abbrev pub is_stat_of : ℕ → Instant → DailyStat → Bool
is_stat_of i day s = s.monitor_id == i && s.day == day

abbrev pub upserted : DailyStat → List DailyStat → List DailyStat
upserted row rows =
    if is_some (find (is_stat_of row.monitor_id row.day) rows)
    then update_where (is_stat_of row.monitor_id row.day) (λ s. row) rows
    else rows ++ row ∷ []

unfoldable pub upsert_daily_stat : DailyStat → Db → Result (Unit {0} × Db)
upsert_daily_stat row db =
    if has_monitor row.monitor_id db
    then ok (tt, record db { daily_stats = upserted row db.daily_stats })
    else err foreign_key_violation
