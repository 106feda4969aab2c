-- ===== src/Worker/Rollup.antt =====
-- backend/worker/rollup/rollup.go: the nightly tick. Its loop calls it with the time of the clock;
-- days are counted from Go's zero time, and a cutoff before it is that time.
pub mod Laws
mod Examples
use ping.Prelude.{ℕ, zero, suc, ◌-◌, ◌*◌, Bool, Option, none, some, List, ◌==◌, if◌then◌else◌}
use ping.Prelude.Int.{ℤ, pos, negsuc}
use ping.Schedule.{Instant}
use ping.Db.Result.{Result, ok, err}
use ping.Store.{Conn, Op}
use ping.Store.Rollup.{PruneResult, prune_old_data, prune_batch_limit}
use ping.Store.Rollup.Day.{Stats, RollupResult, rollup_day, midnight, day_length}

abbrev pub default_retention_days : ℕ
default_retention_days = 90

-- The state: what is kept, and the day that was rolled up last (0, Go's zero time, for none).
pub record Rollup : Type 0 where
  pub retention_days : ℕ
  pub last_rolled_date : Instant

abbrev days_or_default : ℤ → ℕ
days_or_default (pos zero) = default_retention_days
days_or_default (pos (suc n)) = suc n
days_or_default (negsuc n) = default_retention_days

-- New.
abbrev pub new : ℤ → Rollup
new retention_days = record {
  retention_days = days_or_default retention_days;
  last_rolled_date = 0;
}

-- AddDate (0, 0, -n) of a midnight in UTC.
abbrev pub days_before : ℕ → Instant → Instant
days_before n t = t - n * day_length

abbrev pub yesterday : Instant → Instant
yesterday now = days_before 1 (midnight now)

abbrev pub cutoff_of : Rollup → Instant → Instant
cutoff_of r now = days_before r.retention_days (midnight now)

abbrev rolled : Instant → Rollup → Result RollupResult → Rollup
rolled day r (ok res) = record r { last_rolled_date = day }
rolled day r (err e) = r

-- The errors of both parts are logged only.
module _ (percentile : ℕ → List ℤ → Option ℤ) (visit : Stats → Stats) (is_cancelled : ℕ → Bool)
    (fuel : ℕ) where
  abbrev pub roll_up_once : Instant → Rollup → Conn → Rollup × Conn
  roll_up_once now r c =
      if r.last_rolled_date == yesterday now
      then (r, c)
      else let res = rollup_day percentile visit (yesterday now) c in
        (rolled (yesterday now) r res.0, res.1)

  unfoldable pub tick : Instant → Rollup → Conn → Rollup × Conn
  tick now r c =
      let first = roll_up_once now r c in
      (first.0, (prune_old_data is_cancelled prune_batch_limit fuel (cutoff_of r now) first.1).1)
