-- ===== src/Store/Rollup/Day/Upserts.antt =====
-- The rows that the loop over the map leaves.
use mathlib.Core.Path.{subst}
use ping.Prelude.{
  ℕ, ◌≡◌, refl, ap, ◌∙◌, inl, inr, true, false, ◌&&◌, Option, none, some, List, [], ◌∷◌, ◌++◌, find,
  is_some, update_where, ◌==◌, ==_iff, All, Bool-cases, if◌then◌else◌, arith,
}
use ping.Schedule.{Instant}
use ping.Db.{Db, DailyStat, has_monitor}
use ping.Db.Stats.{is_stat_of, upserted, upsert_daily_stat}
use ping.Db.Batches.Laws.{IsDistinct, Apart}
use ping.Store.Returns.{Returns, pure-Returns, exec-Returns, >>=-Returns}
use ping.Store.Rollup.Day.{Stat, Stats, upsert_all}
use ping.Store.Rollup.Day.Merge.{look, key_of}

abbrev pub stat_row : Instant → ℕ → Stat → DailyStat
stat_row day i s = record {
  monitor_id = i;
  day = day;
  checkins = s.checkins;
  failures = s.failures;
  downtime_s = s.downtime_s;
  latency_p50 = s.latency_p50;
  latency_p95 = s.latency_p95;
}

abbrev pub upserts : Instant → Stats → List DailyStat → List DailyStat
upserts day [] rows = rows
upserts day ((i, s) ∷ m) rows = upserts day m (upserted (stat_row day i s) rows)

pub upsert_all-Returns :
    (day : Instant) (m : Stats) (d : Db)
    → All (λ e. has_monitor e.0 d ≡ true) m
    → Returns (upsert_all day m) d tt (record d { daily_stats = upserts day m d.daily_stats })
unfolding upsert_all upsert_daily_stat
upsert_all-Returns day [] d h = pure-Returns tt d
upsert_all-Returns day ((i, s) ∷ m) d (p, h) =
    let d₁ = record d { daily_stats = upserted (stat_row day i s) d.daily_stats } in
    >>=-Returns _ _ d tt d₁ tt _ (exec-Returns _ d tt d₁ (rw p refl))
      (upsert_all-Returns day m d₁ h)

elsewhere :
    (row : DailyStat) (j : ℕ) (day : Instant) (rows : List DailyStat)
    → is_stat_of j day row ≡ false
    → find (is_stat_of j day) (update_where (is_stat_of row.monitor_id row.day) (λ s. row) rows)
      ≡ find (is_stat_of j day) rows
unfolding find update_where
elsewhere row j day [] h = refl
elsewhere row j day (r ∷ rows) h = ground (arith, h, elsewhere row j day rows h)

replaced :
    (row : DailyStat) (j : ℕ) (day : Instant) (rows : List DailyStat)
    → is_stat_of j day row ≡ true
    → is_some (find (is_stat_of row.monitor_id row.day) rows) ≡ true
    → find (is_stat_of j day) (update_where (is_stat_of row.monitor_id row.day) (λ s. row) rows)
      ≡ some row
unfolding find update_where
replaced row j day [] q h = absurd (ground (arith, h))
replaced row j day (r ∷ rows) q h = elim (Bool-cases (is_stat_of row.monitor_id row.day r)) [
  | inl e ↦ rw e (rw q refl)
  | inr e ↦
      let other : is_stat_of j day r ≡ false = ground (arith, q, e) in
      rw (e, other) (replaced row j day rows q (rw e at h))
]

appended :
    (row : DailyStat) (j : ℕ) (day : Instant) (rows : List DailyStat)
    → is_some (find (is_stat_of row.monitor_id row.day) rows) ≡ false
    → find (is_stat_of j day) (rows ++ row ∷ [])
      ≡ (if is_stat_of j day row then some row else find (is_stat_of j day) rows)
unfolding find
appended row j day [] h = refl
appended row j day (r ∷ rows) h = elim (Bool-cases (is_stat_of row.monitor_id row.day r)) [
  | inl e ↦ absurd (ground (arith, rw e at h))
  | inr e ↦ elim (Bool-cases (is_stat_of j day r)) [
    | inl k ↦ let other : is_stat_of j day row ≡ false = ground (arith, k, e) in rw (k, other) refl
    | inr k ↦ rw k (appended row j day rows (rw e at h))
  ]
]

find-upserted :
    (row : DailyStat) (j : ℕ) (day : Instant) (rows : List DailyStat)
    → find (is_stat_of j day) (upserted row rows)
      ≡ (if is_stat_of j day row then some row else find (is_stat_of j day) rows)
find-upserted row j day rows =
    elim (Bool-cases (is_some (find (is_stat_of row.monitor_id row.day) rows))) [
      | inl e ↦ rw e (elim (Bool-cases (is_stat_of j day row)) [
        | inl q ↦ rw q (replaced row j day rows q e)
        | inr q ↦ rw q (elsewhere row j day rows q)
      ])
      | inr e ↦ rw e (appended row j day rows e)
    ]

-- The row of a monitor and a day: that of the entry, or the old one.
abbrev pub row_or : Instant → ℕ → Option Stat → Option DailyStat → Option DailyStat
row_or day j none old = old
row_or day j (some s) old = some (stat_row day j s)

unlisted : (j : ℕ) (m : Stats) → All (λ e. (e.0 == j) ≡ false) m → look j m ≡ none
unlisted j [] h = refl
unlisted j ((i, s) ∷ m) (e, h) = rw e (unlisted j m h)

-- One entry before the others, none of which is its monitor's.
one_entry :
    (day : Instant) (i : ℕ) (s : Stat) (m : Stats) (j : ℕ) (t : Instant) (old : Option DailyStat)
    → All (Apart key_of (i, s)) m
    → (if day == t
        then row_or day j
            (look j m)
            (if (i == j) && (day == t) then some (stat_row day i s) else old)
        else (if (i == j) && (day == t) then some (stat_row day i s) else old))
      ≡ (if day == t then row_or day j (if i == j then some s else look j m) old else old)
one_entry day i s m j t old a = elim (Bool-cases (day == t)) [
  | inl e ↦ elim (Bool-cases (i == j)) [
    | inl q ↦
        let same : i ≡ j = (==_iff i j).0 q in
        let others =
          unlisted j m (subst (λ k. All (λ (x : ℕ × Stat). (x.0 == k) ≡ false) m) same a) in
        rw (e, q, others) (ap (λ k. some (stat_row day k s)) same)
    | inr q ↦ rw (e, q) refl
  ]
  | inr e ↦ elim (Bool-cases (i == j)) [ inl q ↦ rw (e, q) refl | inr q ↦ rw (e, q) refl ]
]

pub find-upserts :
    (day : Instant) (m : Stats) (j : ℕ) (t : Instant) (rows : List DailyStat)
    → IsDistinct key_of m
    → find (is_stat_of j t) (upserts day m rows) ≡ (
        if day == t
        then row_or day j (look j m) (find (is_stat_of j t) rows)
        else find (is_stat_of j t) rows)
find-upserts day [] j t rows h = elim (Bool-cases (day == t)) [
  | inl e ↦ rw e refl
  | inr e ↦ rw e refl
]
find-upserts day ((i, s) ∷ m) j t rows (a, h) =
    find-upserts day m j t (upserted (stat_row day i s) rows) h
    ∙ (rw (find-upserted (stat_row day i s) j t rows)
        (one_entry day i s m j t (find (is_stat_of j t) rows) a))
