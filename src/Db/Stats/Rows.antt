-- ===== src/Db/Stats/Rows.antt =====
-- The row of a monitor in each of the three results that a rollup merges.
use ping.Prelude.{
  ℕ, ◌≡◌, refl, ap, ◌∙◌, inl, inr, false, Option, none, some, List, [], ◌∷◌, map, find, select,
  ◌==◌, Bool-cases, if◌then◌else◌, arith,
}
use ping.Prelude.Int.{ℤ}
use ping.Schedule.{Instant}
use ping.Db.{Db, Event}
use ping.Db.Sort.{sort_by}
use ping.Db.Stats.{
  checkins_of, probes_of, checkin_counts, probe_stats, DowntimeSecondsRow, downtime, round_seconds,
  has_outage, group_keys, rollup_checkin_counts, rollup_probe_stats, rollup_downtime_seconds,
  is_transition_of, outages,
}
use ping.Db.Stats.Groups.{
  this, has_key, group_keys-IsDistinct, has-group_keys, has-select_of, find-map, IsDistinct-map,
}
use ping.Db.Batches.Laws.{IsDistinct, IsDistinct-select}

-- A row for each key of the rows.
module _ {A R : Type 0} (key : A → ℕ) (id : R → ℕ) (f : ℕ → R) (id-f : (j : ℕ) → id (f j) ≡ j)
    (xs : List A) where
  find_group :
      (i : ℕ)
      → find (λ r. id r == i) (map f (group_keys key xs))
        ≡ (if has_key key i xs then some (f i) else none)
  find_group i =
      find-map id f id-f i (group_keys key xs)
      ∙ ap (λ b. if b then some (f i) else none) (has-group_keys key i xs)

  group-IsDistinct : IsDistinct id (map f (group_keys key xs))
  group-IsDistinct = IsDistinct-map id f id-f (group_keys key xs) (group_keys-IsDistinct key xs)

module _ (lo hi : Instant) (d : Db) where
  pub find-checkin_counts :
      (i : ℕ)
      → find (λ r. r.monitor_id == i) (rollup_checkin_counts lo hi d) ≡ (
          if has_key (λ r. r.monitor_id) i (checkins_of lo hi d)
          then some (checkin_counts (checkins_of lo hi d) i)
          else none)
  unfolding rollup_checkin_counts
  find-checkin_counts =
      find_group (λ r. r.monitor_id) (λ r. r.monitor_id) (checkin_counts (checkins_of lo hi d))
        (λ j. refl) (checkins_of lo hi d)

  pub checkin_counts-IsDistinct : IsDistinct (λ r. r.monitor_id) (rollup_checkin_counts lo hi d)
  unfolding rollup_checkin_counts
  checkin_counts-IsDistinct =
      group-IsDistinct (λ r. r.monitor_id) (λ r. r.monitor_id)
        (checkin_counts (checkins_of lo hi d)) (λ j. refl) (checkins_of lo hi d)

  module _ (percentile : ℕ → List ℤ → Option ℤ) where
    pub find-probe_stats :
        (i : ℕ)
        → find (λ r. r.monitor_id == i) (rollup_probe_stats percentile lo hi d) ≡ (
            if has_key (λ r. r.monitor_id) i (probes_of lo hi d)
            then some (probe_stats percentile (probes_of lo hi d) i)
            else none)
    unfolding rollup_probe_stats
    find-probe_stats =
        find_group (λ r. r.monitor_id) (λ r. r.monitor_id)
          (probe_stats percentile (probes_of lo hi d)) (λ j. refl) (probes_of lo hi d)

    pub probe_stats-IsDistinct :
        IsDistinct (λ r. r.monitor_id) (rollup_probe_stats percentile lo hi d)
    unfolding rollup_probe_stats
    probe_stats-IsDistinct =
        group-IsDistinct (λ r. r.monitor_id) (λ r. r.monitor_id)
          (probe_stats percentile (probes_of lo hi d)) (λ j. refl) (probes_of lo hi d)

  no_events :
      (i : ℕ) (es : List Event)
      → has_key (λ e. e.monitor_id) i es ≡ false
      → select (is_transition_of hi i) es ≡ []
  unfolding find select
  no_events i [] h = refl
  no_events i (e ∷ es) h = elim (Bool-cases (e.monitor_id == i)) [
    | inl q ↦ absurd (ground (arith, rw q at h))
    | inr q ↦ rw q (no_events i es (rw q at h))
  ]

  -- A monitor without events has no outage.
  outage_noted :
      (i : ℕ)
      → (if has_key (λ e. e.monitor_id) i d.events then has_outage lo hi d i else false)
        ≡ has_outage lo hi d i
  unfolding has_outage outages sort_by find
  outage_noted i = elim (Bool-cases (has_key (λ e. e.monitor_id) i d.events)) [
    | inl e ↦ rw e refl
    | inr e ↦ rw e (rw (no_events i d.events e) refl)
  ]

  abbrev downtime_row : ℕ → DowntimeSecondsRow
  downtime_row i = record { monitor_id = i; downtime_s = round_seconds (downtime lo hi i d) }

  pub find-downtime_seconds :
      (i : ℕ)
      → find (λ r. r.monitor_id == i) (rollup_downtime_seconds lo hi d) ≡ (
          if has_outage lo hi d i
          then some (record { monitor_id = i; downtime_s = round_seconds (downtime lo hi i d) })
          else none)
  unfolding rollup_downtime_seconds
  find-downtime_seconds i =
      let keys = group_keys (λ e. e.monitor_id) d.events in
      find-map (λ r. r.monitor_id) downtime_row (λ j. refl) i (select (has_outage lo hi d) keys)
      ∙ ap (λ b. if b then some (downtime_row i) else none)
          (has-select_of (has_outage lo hi d) i keys
            ∙ ap (λ b. if b then has_outage lo hi d i else false)
                (has-group_keys (λ e. e.monitor_id) i d.events)
            ∙ outage_noted i)

  pub downtime_seconds-IsDistinct : IsDistinct (λ r. r.monitor_id) (rollup_downtime_seconds lo hi d)
  unfolding rollup_downtime_seconds
  downtime_seconds-IsDistinct =
      IsDistinct-map (λ r. r.monitor_id) downtime_row (λ j. refl) _
        (IsDistinct-select this (has_outage lo hi d) _
          (group_keys-IsDistinct (λ e. e.monitor_id) d.events))
