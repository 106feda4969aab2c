-- ===== src/Store/Rollup/Examples.antt =====
-- Ninety hours are kept: one check-in of two is old, and an event that an alert awaits stays.
use ping.Prelude.{ℕ, ◌*◌, ◌≡◌, refl, Bool, false, none, [], ◌∷◌, select, find, arith}
use ping.Schedule.{Instant, hour}
use ping.Db.{Db, Checkin, success, Event, EventType, text, empty, Alert, pending}
use ping.Db.Samples.{quiet}
use ping.Store.Returns.{Returns}
use ping.Store.Rollup.{prune_batch_limit, prune_old_data}
use ping.Store.Rollup.Timeline.{pending_of}
use ping.Store.Rollup.Prune.{old_rows, Fits, pruned, prune_old_data_lem}

abbrev ping_at : ℕ → Instant → Checkin
ping_at i at = record {
  id = i;
  monitor_id = 1;
  kind = success;
  source_ip = none;
  user_agent = none;
  body = none;
  created_at = at;
}

abbrev went_down : Event
went_down = record {
  id = 1;
  monitor_id = 1;
  type = EventType.down;
  message = text "Monitor reported failure";
  meta = empty;
  created_at = 5 * hour;
}

abbrev unsent : Alert
unsent = record {
  id = 1;
  monitor_id = 1;
  event_id = 1;
  channel = "email";
  status = pending;
  attempts = 0;
  next_attempt_at = 5 * hour;
  sent_at = none;
  created_at = 5 * hour;
  is_reminder = false;
}

abbrev aged : Db
aged = record quiet {
  checkins = ping_at 1 (3 * hour) ∷ ping_at 2 (95 * hour) ∷ [];
  events = went_down ∷ [];
  alerts = unsent ∷ [];
}

abbrev never : ℕ → Bool
never n = false

machine : Unit {0}
unfolding select find
machine = tt

aged-Fits : Fits (2 * prune_batch_limit) (old_rows (90 * hour) aged)
unfolding machine
aged-Fits = record { checkins = omega arith; probe_results = omega arith; events = omega arith }

prune_old_data_lem_example :
    (d' : Db) × Returns
      (prune_old_data never prune_batch_limit 2 (90 * hour))
      aged
      (old_rows (90 * hour) aged)
      d'
    × (pending_of d'.alerts ≡ pending_of aged.alerts)
    × (d' ≡ pruned (90 * hour) d'.alerts aged)
prune_old_data_lem_example =
    prune_old_data_lem never 2 (90 * hour) aged (λ n. refl) ((refl, tt), (tt, tt)) tt (tt, tt)
      aged-Fits
