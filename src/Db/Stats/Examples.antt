-- ===== src/Db/Stats/Examples.antt =====
-- A monitor that is down for ten hours of the day, and one of them on the day after.
use ping.Prelude.{◌+◌, ◌*◌, ◌≡◌, refl, [], ◌∷◌, select, false}
use ping.Schedule.{Instant, hour}
use ping.Db.{Db, Event, EventType, text, empty}
use ping.Db.Sort.{sort_by}
use ping.Db.Samples.{quiet}
use ping.Db.Stats.{downtime, outages, total_overlap, transitions}
use ping.Db.Stats.Sums.{ticks}
use ping.Db.Stats.Downtime.{IsAlternating, down_after, downtime_lem}

abbrev moved : EventType → Instant → Event
moved t at = record {
  id = at;
  monitor_id = 1;
  type = t;
  message = text "moved";
  meta = empty;
  created_at = at;
}

abbrev troubled : Db
troubled = record quiet {
  events = moved EventType.down (38 * hour) ∷ moved EventType.up (49 * hour) ∷ [];
}

machine : Unit {0}
unfolding select sort_by downtime outages total_overlap
machine = tt

ten_hours : downtime (24 * hour) (48 * hour) 1 troubled ≡ 10 * hour
unfolding machine
ten_hours = refl

alternates : IsAlternating (transitions (24 * hour + 24 * hour) 1 troubled)
unfolding machine
alternates = tt

downtime_lem_example :
    downtime (24 * hour) (24 * hour + 24 * hour) 1 troubled
    ≡ ticks
        (down_after false (transitions (24 * hour + 24 * hour) 1 troubled))
        (24 * hour)
        (24 * hour)
downtime_lem_example = downtime_lem (24 * hour) (24 * hour) 1 troubled alternates
