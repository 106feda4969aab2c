-- ===== src/Store/Rollup.antt =====
-- backend/store/rollup.go: the retention. `cancelled n` says whether the context is cancelled when
-- the n-th statement of the connection is due.
pub mod Drain
pub mod Tables
pub mod Timeline
pub mod Prune
pub mod Day
mod Examples
use ping.Prelude.{ℕ, zero, suc, ◌+◌, Bool, true, false, if◌then◌else◌, ltb}
use ping.Schedule.{Instant}
use ping.Db.{Db}
use ping.Db.Result.{ok, cancelled, unfinished}
use ping.Db.Batches.{
  delete_old_checkins_batch, delete_old_probe_results_batch, delete_old_events_batch,
}
use ping.Store.{Op, pure, fail_with, ◌>>=◌, exec}

abbrev pub prune_batch_limit : ℕ
prune_batch_limit = 5000

pub record PruneResult : Type 0 where
  pub checkins : ℕ
  pub probe_results : ℕ
  pub events : ℕ

-- The check of ctx.Err before a statement.
abbrev pub unless_cancelled : (ℕ → Bool) → Op ℕ → Op ℕ
unless_cancelled is_cancelled m c = if is_cancelled c.step then fail_with cancelled c else m c

abbrev pub batch : (Db → ℕ × Db) → Op ℕ
batch f = exec (λ db. ok (f db))

module _ (is_cancelled : ℕ → Bool) (limit : ℕ) where
  -- One turn of the loop, and what follows it after a full batch.
  abbrev pub after_batch : ℕ → Op ℕ → ℕ → Op ℕ
  after_batch total next n = elim (ltb n limit) [ true ↦ pure total | false ↦ next ]

  -- The fuel is the number of batches that may be made.
  unfoldable pub drain_batches : ℕ → Op ℕ → ℕ → Op ℕ
  drain_batches zero delete_batch total = fail_with unfinished
  drain_batches (suc fuel) delete_batch total =
      let next = λ (sum : ℕ). drain_batches fuel delete_batch sum in
      unless_cancelled is_cancelled
        (delete_batch >>= λ n. after_batch (total + n) (next (total + n)) n)

  unfoldable pub prune_old_data : ℕ → Instant → Op PruneResult
  unfolding drain_batches
  prune_old_data fuel cutoff = do
    checkins ← drain_batches fuel (batch (delete_old_checkins_batch cutoff limit)) 0
    probe_results ← drain_batches fuel (batch (delete_old_probe_results_batch cutoff limit)) 0
    events ← drain_batches fuel (batch (delete_old_events_batch cutoff limit)) 0
    pure (record { checkins = checkins; probe_results = probe_results; events = events })
