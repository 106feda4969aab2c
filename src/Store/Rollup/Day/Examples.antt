-- ===== src/Store/Rollup/Day/Examples.antt =====
-- A day with one check-in of the backup.
use ping.Prelude.{
  ℕ, ◌+◌, ◌*◌, ◌≡◌, refl, inl, inr, true, Option, none, List, [], ◌∷◌, select, find, ◌==◌,
  Bool-cases, arith,
}
use ping.Prelude.Int.{ℤ}
use ping.Schedule.{hour}
use ping.Db.{Db, success, has_monitor}
use ping.Db.Samples.{quiet}
use ping.Db.Sort.{sort_by}
use ping.Db.Stats.{outages, has_outage}
use ping.Store.Returns.{Returns}
use ping.Store.Rollup.Day.{Stats, midnight, day_length, RollupResult, rollup_day}
use ping.Store.Rollup.Day.Laws.{is_active, RolledUp, IsVisit, rollup_day_lem}

abbrev one_ping : Db
one_ping = record quiet {
  checkins =
      record {
        id = 1;
        monitor_id = 1;
        kind = success;
        source_ip = none;
        user_agent = none;
        body = none;
        created_at = 75 * hour;
      }
      ∷ [];
}

abbrev no_percentile : ℕ → List ℤ → Option ℤ
no_percentile p vs = none

abbrev in_order : Stats → Stats
in_order m = m

in_order-IsVisit : IsVisit in_order
in_order-IsVisit = record { entry = λ i m. refl; once = λ m h. h }

active_there :
    (i : ℕ)
    → is_active (midnight (80 * hour)) (midnight (80 * hour) + day_length) one_ping i ≡ true
    → has_monitor i one_ping ≡ true
unfolding select find sort_by outages has_outage
active_there i h = elim (Bool-cases (1 == i)) [
  | inl e ↦ rw e refl
  | inr e ↦ absurd (ground (arith, rw e at h))
]

rollup_day_lem_example :
    (d' : Db) × (r : RollupResult) × Returns
      (rollup_day no_percentile in_order (80 * hour))
      one_ping
      r
      d'
    × RolledUp no_percentile (midnight (80 * hour)) one_ping d'
rollup_day_lem_example =
    rollup_day_lem no_percentile in_order in_order-IsVisit (80 * hour) one_ping active_there
