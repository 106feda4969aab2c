-- ===== src/Worker/Rollup/Laws.antt =====
-- The first tick of a day.
use mathlib.Core.Path.{subst}
use ping.Prelude.{ℕ, ◌+◌, ◌*◌, ◌≡◌, refl, sym, ap, ◌∙◌, Bool, true, false, Option, List, ◌==◌}
use ping.Prelude.Int.{ℤ}
use ping.Schedule.{Instant}
use ping.Db.{Db, has_monitor}
use ping.Db.Result.{Result}
use ping.Db.Batches.{checkin_id, probe_id, event_id}
use ping.Db.Batches.Laws.{IsDistinct}
use ping.Store.{Conn}
use ping.Store.Tx.{Clean}
use ping.Store.Rollup.{prune_batch_limit, PruneResult, prune_old_data}
use ping.Store.Rollup.Timeline.{pending_of}
use ping.Store.Rollup.Prune.{old_rows, Fits, pruned, prune_old_data_lem}
use ping.Store.Rollup.Day.{Stats, midnight, day_length}
use ping.Store.Rollup.Day.Laws.{is_active, RolledUp, IsVisit, rollup_day_lem}
use ping.Worker.Rollup.{Rollup, yesterday, cutoff_of, roll_up_once, tick}

-- The tables are sound for the rollup and the retention of this moment.
pub record IsTidy (fuel : ℕ) (r : Rollup) (now : Instant) (d : Db) : Type 0 where
  pub checkins : IsDistinct checkin_id d.checkins
  pub probe_results : IsDistinct probe_id d.probe_results
  pub events : IsDistinct event_id d.events
  pub fits : Fits (fuel * prune_batch_limit) (old_rows (cutoff_of r now) d)
  pub active :
      (i : ℕ)
      → is_active (midnight (yesterday now)) (midnight (yesterday now) + day_length) d i ≡ true
      → has_monitor i d ≡ true

-- The tables after the first tick of a day: the rows of yesterday, without what is past retention.
abbrev pub Kept : (ℕ → List ℤ → Option ℤ) → Rollup → Instant → Db → Db → Type 0
Kept percentile r now d d' =
    (stats : Db) × RolledUp percentile (midnight (yesterday now)) d stats
    × (pending_of d'.alerts ≡ pending_of d.alerts)
    × (d' ≡ pruned (cutoff_of r now) d'.alerts stats)

module _ (percentile : ℕ → List ℤ → Option ℤ) (visit : Stats → Stats) (is_cancelled : ℕ → Bool)
    (fuel : ℕ) (now : Instant) (r : Rollup) where
  -- Where no statement fails, the context is not cancelled, Go visits each entry of the map once,
  -- the tables are tidy and yesterday was not rolled up yet, the tick writes the statistics of
  -- yesterday, deletes what is past its retention, keeps all pending alerts, and notes the day.
  pub tick_lem :
      (c : Conn)
      → Clean c
      → IsVisit visit
      → ((n : ℕ) → is_cancelled n ≡ false)
      → IsTidy fuel r now c.db
      → (r.last_rolled_date == yesterday now) ≡ false
      → ((tick percentile visit is_cancelled fuel now r c).0.last_rolled_date ≡ yesterday now)
        × Kept percentile r now c.db (tick percentile visit is_cancelled fuel now r c).1.db
  unfolding tick
  tick_lem c clean visits go tidy fresh =
      let (stats, res, rolls, done) =
        rollup_day_lem percentile visit visits (yesterday now) c.db tidy.active in
      let (c₁, p, q, clean₁) = rolls c refl clean in
      let first : roll_up_once percentile visit is_cancelled fuel now r c
          ≡ (record r { last_rolled_date = yesterday now }, c₁) =
        rw (fresh, p) refl in
      let d₁ = record c.db { daily_stats = stats.daily_stats } in
      let (d', prunes, pend, same) =
        prune_old_data_lem is_cancelled fuel (cutoff_of r now) d₁ go tidy.checkins
          tidy.probe_results tidy.events tidy.fits in
      let (c₂, p₂, q₂, _) = prunes c₁ (q ∙ done.0) clean₁ in
      let ends : (tick percentile visit is_cancelled fuel now r c).1.db ≡ d' =
        ap
          (λ (x : Rollup × Conn).
            (prune_old_data is_cancelled prune_batch_limit fuel (cutoff_of r now) x.1).1.db)
          first
        ∙ ap (λ (x : Result PruneResult × Conn). x.1.db) p₂
        ∙ q₂ in
      (
        ap (λ (x : Rollup × Conn). x.0.last_rolled_date) first,
        subst (Kept percentile r now c.db) (sym ends) (d₁, (refl, done.1), pend, same),
      )
