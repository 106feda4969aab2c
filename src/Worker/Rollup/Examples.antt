-- ===== src/Worker/Rollup/Examples.antt =====
-- The tick of the fifth day: the day before has one check-in, and the first day has one that is old.
use ping.Prelude.{
  ℕ, ◌+◌, ◌*◌, ◌≡◌, refl, inl, inr, Bool, true, false, Option, none, List, [], ◌∷◌, select, find,
  ◌==◌, Bool-cases, arith,
}
use ping.Prelude.Int.{ℤ, pos}
use ping.Schedule.{Instant, hour}
use ping.Db.{Db, Checkin, success, has_monitor}
use ping.Db.Samples.{quiet}
use ping.Db.Sort.{sort_by}
use ping.Db.Stats.{outages, has_outage}
use ping.Store.{Conn, calm}
use ping.Store.Rollup.{prune_batch_limit}
use ping.Store.Rollup.Prune.{old_rows, Fits}
use ping.Store.Rollup.Day.{Stats, midnight, day_length}
use ping.Store.Rollup.Day.Laws.{is_active, IsVisit}
use ping.Worker.Rollup.{Rollup, new, yesterday, cutoff_of, tick}
use ping.Worker.Rollup.Laws.{IsTidy, Kept, tick_lem}

abbrev ping_at : ℕ → Instant → Checkin
ping_at i at = record {
  id = i;
  monitor_id = 1;
  kind = success;
  source_ip = none;
  user_agent = none;
  body = none;
  created_at = at;
}

abbrev two_pings : Db
two_pings = record quiet { checkins = ping_at 1 (3 * hour) ∷ ping_at 2 (75 * hour) ∷ [] }

abbrev three_days : Rollup
three_days = new (pos 3)

abbrev no_percentile : ℕ → List ℤ → Option ℤ
no_percentile p vs = none

abbrev in_order : Stats → Stats
in_order m = m

in_order-IsVisit : IsVisit in_order
in_order-IsVisit = record { entry = λ i m. refl; once = λ m h. h }

abbrev never : ℕ → Bool
never n = false

active_there :
    (i : ℕ)
    → is_active
        (midnight (yesterday (101 * hour)))
        (midnight (yesterday (101 * hour)) + day_length)
        two_pings
        i
      ≡ true
    → has_monitor i two_pings ≡ true
unfolding select find sort_by outages has_outage
active_there i h = elim (Bool-cases (1 == i)) [
  | inl e ↦ rw e refl
  | inr e ↦ absurd (ground (arith, rw e at h))
]

two_pings-Fits :
    Fits (2 * prune_batch_limit) (old_rows (cutoff_of three_days (101 * hour)) two_pings)
unfolding select find
two_pings-Fits = record {
  checkins = omega arith;
  probe_results = omega arith;
  events = omega arith;
}

two_pings-IsTidy : IsTidy 2 three_days (101 * hour) two_pings
two_pings-IsTidy = record {
  checkins = ((refl, tt), (tt, tt));
  probe_results = tt;
  events = tt;
  fits = two_pings-Fits;
  active = active_there;
}

abbrev after : Rollup × Conn
after = tick no_percentile in_order never 2 (101 * hour) three_days (calm two_pings)

tick_lem_example :
    (after.0.last_rolled_date ≡ yesterday (101 * hour))
    × Kept no_percentile three_days (101 * hour) two_pings after.1.db
tick_lem_example =
    tick_lem no_percentile in_order never 2 (101 * hour) three_days (calm two_pings) (λ n. refl)
      in_order-IsVisit (λ n. refl) two_pings-IsTidy refl
