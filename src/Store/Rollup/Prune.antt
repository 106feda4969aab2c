-- ===== src/Store/Rollup/Prune.antt =====
-- The retention as a whole.
use ping.Prelude.{ℕ, ◌*◌, ◌<◌, ◌≡◌, ap, ◌∙◌, Bool, false, not, List, select, length, arith}
use ping.Schedule.{Instant}
use ping.Db.{Db, Alert}
use ping.Db.Batches.{checkin_id, probe_id, event_id, is_old_checkin, is_old_probe, is_old_event}
use ping.Db.Batches.Laws.{IsDistinct}
use ping.Store.Returns.{Returns, pure-Returns, >>=-Returns}
use ping.Store.Rollup.{PruneResult, prune_batch_limit, prune_old_data}
use ping.Store.Rollup.Tables.{checkins-Returns, probe_results-Returns}
use ping.Store.Rollup.Timeline.{pending_of, events-Returns}

abbrev pub old_rows : Instant → Db → PruneResult
old_rows cutoff d = record {
  checkins = length (select (is_old_checkin cutoff) d.checkins);
  probe_results = length (select (is_old_probe cutoff) d.probe_results);
  events = length (select (is_old_event cutoff d.alerts) d.events);
}

-- More batches may be made than there are full ones.
pub record Fits (n : ℕ) (r : PruneResult) : Type 0 where
  pub checkins : r.checkins < n
  pub probe_results : r.probe_results < n
  pub events : r.events < n

-- The tables without their old rows, with these alerts.
abbrev pub pruned : Instant → List Alert → Db → Db
pruned cutoff alerts d = record d {
  checkins = select (λ r. not (is_old_checkin cutoff r)) d.checkins;
  probe_results = select (λ r. not (is_old_probe cutoff r)) d.probe_results;
  events = select (λ e. not (is_old_event cutoff d.alerts e)) d.events;
  alerts = alerts;
}

-- Where no statement fails and the context is not cancelled, ids are distinct, and more batches may
-- be made than there are full ones, the retention ends. It counts what it deletes: the check-ins
-- and the probe results before the cutoff, and the events before it that no pending alert is about.
-- All others stay, all pending alerts too, and so do the other tables.
pub prune_old_data_lem :
    (is_cancelled : ℕ → Bool) (fuel : ℕ) (cutoff : Instant) (d : Db)
    → ((n : ℕ) → is_cancelled n ≡ false)
    → IsDistinct checkin_id d.checkins
    → IsDistinct probe_id d.probe_results
    → IsDistinct event_id d.events
    → Fits (fuel * prune_batch_limit) (old_rows cutoff d)
    → (d' : Db) × Returns
        (prune_old_data is_cancelled prune_batch_limit fuel cutoff)
        d
        (old_rows cutoff d)
        d'
      × (pending_of d'.alerts ≡ pending_of d.alerts)
      × (d' ≡ pruned cutoff d'.alerts d)
unfolding prune_old_data
prune_old_data_lem is_cancelled fuel cutoff d go hc hp he fits =
    let d₁ = record d { checkins = select (λ r. not (is_old_checkin cutoff r)) d.checkins } in
    let d₂ = record d₁ {
      probe_results = select (λ r. not (is_old_probe cutoff r)) d.probe_results;
    } in
    let (d', runs, kept, pend, same) =
      events-Returns cutoff prune_batch_limit is_cancelled go (omega arith) fuel d₂ fits.events
        he in
    (
      d',
      >>=-Returns _ _ d (old_rows cutoff d).checkins d₁ (old_rows cutoff d) d'
          (checkins-Returns is_cancelled go cutoff prune_batch_limit (omega arith) fuel d
            fits.checkins hc)
          (>>=-Returns _ _ d₁ (old_rows cutoff d).probe_results d₂ (old_rows cutoff d) d'
            (probe_results-Returns is_cancelled go cutoff prune_batch_limit (omega arith) fuel d₁
              fits.probe_results hp)
            (>>=-Returns _ _ d₂ (old_rows cutoff d).events d' (old_rows cutoff d) d' runs
              (pure-Returns (old_rows cutoff d) d'))),
      pend,
      same ∙ ap (λ es. record d₂ { events = es; alerts = d'.alerts }) kept,
    )
