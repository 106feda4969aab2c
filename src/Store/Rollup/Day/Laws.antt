-- ===== src/Store/Rollup/Day/Laws.antt =====
-- What the rollup of a day writes.
use ping.Prelude.{
  ℕ, ◌+◌, ◌≡◌, refl, sym, ap, ap₂, ◌∙◌, inl, inr, Bool, true, false, ◌&&◌, ◌||◌, Option, none, some,
  List, [], ◌∷◌, find, is_some, length, ◌==◌, ==_iff, All, Bool-cases, if◌then◌else◌,
}
use ping.Prelude.Int.{ℤ}
use ping.Schedule.{Instant}
use ping.Db.{Db, DailyStat, has_monitor}
use ping.Db.Stats.{
  checkins_of, probes_of, checkin_counts, probe_stats, downtime, round_seconds, has_outage,
  rollup_checkin_counts, rollup_probe_stats, rollup_downtime_seconds, is_stat_of,
}
use ping.Db.Stats.Rows.{
  find-checkin_counts, find-probe_stats, find-downtime_seconds, checkin_counts-IsDistinct,
  probe_stats-IsDistinct, downtime_seconds-IsDistinct,
}
use ping.Db.Stats.Groups.{has_key}
use ping.Db.Batches.Laws.{IsDistinct}
use ping.Store.Returns.{Returns, pure-Returns, query-Returns, >>=-Returns}
use ping.Store.Rollup.Day.{
  Stat, Stats, set_checkins, set_probes, set_downtime, by_monitor, midnight, day_length,
  RollupResult, rollup_day,
}
use ping.Store.Rollup.Day.Merge.{look, key_of, written, merge-IsDistinct, look-merge}
use ping.Store.Rollup.Day.Upserts.{stat_row, row_or, upserts, upsert_all-Returns, find-upserts}

still :
    (j i : ℕ) (s : Stat) (m : Stats)
    → is_some (look j m) ≡ true
    → is_some (look j ((i, s) ∷ m)) ≡ true
still j i s m h = elim (Bool-cases (i == j)) [ inl e ↦ rw e refl | inr e ↦ rw e h ]

active_if : {A : Type 0} (b : Bool) (a : A) → is_some (if b then some a else none) ≡ true → b ≡ true
active_if true a h = refl
active_if false a h = h

module _ (lo hi : Instant) (d : Db) where
  -- Each entry is of an active monitor.
  listed :
      (m : Stats)
      → ((i : ℕ) → is_some (look i m) ≡ true → has_monitor i d ≡ true)
      → All (λ e. has_monitor e.0 d ≡ true) m
  listed [] h = tt
  listed ((i, s) ∷ m) h =
      (h i (rw ((==_iff i i).1 refl) refl), listed m (λ j k. h j (still j i s m k)))

  abbrev pub has_checkins : ℕ → Bool
  has_checkins i = has_key (λ r. r.monitor_id) i (checkins_of lo hi d)

  abbrev pub has_probes : ℕ → Bool
  has_probes i = has_key (λ r. r.monitor_id) i (probes_of lo hi d)

  -- A monitor with a check-in, a probe or an outage in the day.
  abbrev pub is_active : ℕ → Bool
  is_active i = has_checkins i || has_probes i || has_outage lo hi d i

module _ (percentile : ℕ → List ℤ → Option ℤ) (lo hi : Instant) (d : Db) where
  -- Probes are counted where there are any, and check-ins elsewhere.
  abbrev pub owed_stat : ℕ → Stat
  owed_stat i =
      let c = checkin_counts (checkins_of lo hi d) i in
      let p = probe_stats percentile (probes_of lo hi d) i in
      record {
        checkins =
            if has_probes lo hi d i
            then p.checkins
            else if has_checkins lo hi d i
            then c.checkins
            else 0;
        failures =
            if has_probes lo hi d i
            then p.failures
            else if has_checkins lo hi d i
            then c.failures
            else 0;
        latency_p50 = if has_probes lo hi d i then p.latency_p50 else none;
        latency_p95 = if has_probes lo hi d i then p.latency_p95 else none;
        downtime_s = if has_outage lo hi d i then round_seconds (downtime lo hi i d) else 0;
      }

  abbrev stats : Stats
  stats =
      by_monitor (rollup_checkin_counts lo hi d) (rollup_probe_stats percentile lo hi d)
        (rollup_downtime_seconds lo hi d)

  combined :
      (i : ℕ)
      → written
          (λ r. r.monitor_id)
          set_downtime
          (if has_outage lo hi d i
            then some (record { monitor_id = i; downtime_s = round_seconds (downtime lo hi i d) })
            else none)
          (written
            (λ r. r.monitor_id)
            set_probes
            (if has_probes lo hi d i
              then some (probe_stats percentile (probes_of lo hi d) i)
              else none)
            (written
              (λ r. r.monitor_id)
              set_checkins
              (if has_checkins lo hi d i
                then some (checkin_counts (checkins_of lo hi d) i)
                else none)
              none))
        ≡ (if is_active lo hi d i then some (owed_stat i) else none)
  combined i = elim (Bool-cases (has_checkins lo hi d i)) [
    | inl a ↦ elim (Bool-cases (has_probes lo hi d i)) [
      | inl b ↦ elim (Bool-cases (has_outage lo hi d i)) [
        | inl c ↦ rw (a, b, c) refl
        | inr c ↦ rw (a, b, c) refl
      ]
      | inr b ↦ elim (Bool-cases (has_outage lo hi d i)) [
        | inl c ↦ rw (a, b, c) refl
        | inr c ↦ rw (a, b, c) refl
      ]
    ]
    | inr a ↦ elim (Bool-cases (has_probes lo hi d i)) [
      | inl b ↦ elim (Bool-cases (has_outage lo hi d i)) [
        | inl c ↦ rw (a, b, c) refl
        | inr c ↦ rw (a, b, c) refl
      ]
      | inr b ↦ elim (Bool-cases (has_outage lo hi d i)) [
        | inl c ↦ rw (a, b, c) refl
        | inr c ↦ rw (a, b, c) refl
      ]
    ]
  ]

  look-stats : (i : ℕ) → look i stats ≡ (if is_active lo hi d i then some (owed_stat i) else none)
  look-stats i =
      look-merge (λ r. r.monitor_id) set_downtime i (rollup_downtime_seconds lo hi d) _
        (downtime_seconds-IsDistinct lo hi d)
      ∙ ap₂ (written (λ r. r.monitor_id) set_downtime) (find-downtime_seconds lo hi d i) (
          look-merge (λ r. r.monitor_id) set_probes i (rollup_probe_stats percentile lo hi d) _
            (probe_stats-IsDistinct lo hi d percentile)
          ∙ ap₂ (written (λ r. r.monitor_id) set_probes) (find-probe_stats lo hi d percentile i) (
              look-merge (λ r. r.monitor_id) set_checkins i (rollup_checkin_counts lo hi d) []
                (checkin_counts-IsDistinct lo hi d)
              ∙ ap (λ o. written (λ r. r.monitor_id) set_checkins o none)
                  (find-checkin_counts lo hi d i)))
      ∙ combined i

  stats-IsDistinct : IsDistinct key_of stats
  stats-IsDistinct = merge-IsDistinct _ _ (rollup_downtime_seconds lo hi d) _ (
      merge-IsDistinct _ _ (rollup_probe_stats percentile lo hi d) _
        (merge-IsDistinct _ _ (rollup_checkin_counts lo hi d) [] tt))

-- What the rollup of a day leaves: a row for each active monitor, and all others as they were.
abbrev pub RolledUp : (ℕ → List ℤ → Option ℤ) → Instant → Db → Db → Type 0
RolledUp percentile lo d d' =
    (d' ≡ record d { daily_stats = d'.daily_stats })
    × ((i : ℕ) (t : Instant)
        → find (is_stat_of i t) d'.daily_stats ≡ (
            if (lo == t) && is_active lo (lo + day_length) d i
            then some (stat_row lo i (owed_stat percentile lo (lo + day_length) d i))
            else find (is_stat_of i t) d.daily_stats))

-- The order in which Go visits the entries of a map: each entry once.
pub record IsVisit (visit : Stats → Stats) : Type 0 where
  pub entry : (i : ℕ) (m : Stats) → look i (visit m) ≡ look i m
  pub once : (m : Stats) → IsDistinct key_of m → IsDistinct key_of (visit m)

chosen_row :
    (b c : Bool) (day : Instant) (i : ℕ) (s : Stat) (old : Option DailyStat)
    → (if b then row_or day i (if c then some s else none) old else old)
      ≡ (if b && c then some (stat_row day i s) else old)
chosen_row true true day i s old = refl
chosen_row true false day i s old = refl
chosen_row false c day i s old = refl

module _ (percentile : ℕ → List ℤ → Option ℤ) (visit : Stats → Stats) (visits : IsVisit visit)
    (day : Instant) where
  -- Where Go visits each entry of the map once, no statement fails, and each monitor that is active
  -- in the day is in the table, the rollup leaves for each of them and for this day the row with
  -- its counts, its percentiles and its downtime, whatever row was there; all other rows and tables
  -- stay.
  pub rollup_day_lem :
      (d : Db)
      → ((i : ℕ)
          → is_active (midnight day) (midnight day + day_length) d i ≡ true
          → has_monitor i d ≡ true)
      → (d' : Db) × (r : RollupResult) × Returns (rollup_day percentile visit day) d r d'
        × RolledUp percentile (midnight day) d d'
  unfolding rollup_day
  rollup_day_lem d refs =
      let lo = midnight day in
      let hi = lo + day_length in
      let m = stats percentile lo hi d in
      let there : (i : ℕ) → is_some (look i (visit m)) ≡ true → has_monitor i d ≡ true = λ i h.
        refs i (
          active_if (is_active lo hi d i) _
            (ap is_some (sym (look-stats percentile lo hi d i) ∙ sym (visits.entry i m)) ∙ h)) in
      let d' = record d { daily_stats = upserts lo (visit m) d.daily_stats } in
      (
        d',
        record { monitors_updated = length m },
        >>=-Returns _ _ d _ d _ d' (query-Returns (rollup_checkin_counts lo hi) d) (
            >>=-Returns _ _ d _ d _ d' (query-Returns (rollup_probe_stats percentile lo hi) d) (
              >>=-Returns _ _ d _ d _ d' (query-Returns (rollup_downtime_seconds lo hi) d) (
                >>=-Returns _ _ d tt d' _ d'
                  (upsert_all-Returns lo (visit m) d (listed lo hi d (visit m) there))
                  (pure-Returns _ d')))),
        (
          refl,
          λ i t.
              find-upserts lo (visit m) i t d.daily_stats
                (visits.once m (stats-IsDistinct percentile lo hi d))
              ∙ ap
                  (λ o.
                    if lo == t
                    then row_or lo i o (find (is_stat_of i t) d.daily_stats)
                    else find (is_stat_of i t) d.daily_stats)
                  (visits.entry i m ∙ look-stats percentile lo hi d i)
              ∙ chosen_row (lo == t) (is_active lo hi d i) lo i _ _,
        ),
      )
