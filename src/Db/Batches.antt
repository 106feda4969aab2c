-- ===== src/Db/Batches.antt =====
-- DELETE in batches (backend/db/checkins.sql.go, events.sql.go and probe_results.sql.go): the rows
-- whose id is among those of the first rows that a test selects. LIMIT without an order takes some
-- rows; here it is the first ones.
pub mod Laws
use ping.Prelude.{
  ℕ, ◌+◌, ◌-◌, Bool, true, false, not, ◌&&◌, List, [], ◌∷◌, map, take, select, find, length, ltb,
  ◌==◌, is_none, if◌then◌else◌,
}
use ping.Schedule.{Instant}
use ping.Db.{Db, Checkin, ProbeResult, Event, Alert}
use ping.Db.Outbox.{is_pending}

abbrev pub elem : ℕ → List ℕ → Bool
elem i [] = false
elem i (j ∷ js) = if i == j then true else elem i js

module _ {A : Type 0} (id : A → ℕ) where
  -- The ids of the first rows that pass a test.
  abbrev pub chosen : (A → Bool) → ℕ → List A → List ℕ
  chosen p n xs = map id (take n (select p xs))

  abbrev pub without : List ℕ → List A → List A
  without ids xs = select (λ x. not (elem (id x) ids)) xs

abbrev pub checkin_id : Checkin → ℕ
checkin_id r = r.id

abbrev pub probe_id : ProbeResult → ℕ
probe_id r = r.id

abbrev pub event_id : Event → ℕ
event_id e = e.id

abbrev pub is_old_checkin : Instant → Checkin → Bool
is_old_checkin cutoff r = ltb r.created_at cutoff

unfoldable pub delete_old_checkins_batch : Instant → ℕ → Db → ℕ × Db
delete_old_checkins_batch cutoff limit db =
    let rest =
      without checkin_id (chosen checkin_id (is_old_checkin cutoff) limit db.checkins)
        db.checkins in
    (length db.checkins - length rest, record db { checkins = rest })

abbrev pub is_old_probe : Instant → ProbeResult → Bool
is_old_probe cutoff r = ltb r.created_at cutoff

unfoldable pub delete_old_probe_results_batch : Instant → ℕ → Db → ℕ × Db
delete_old_probe_results_batch cutoff limit db =
    let rest =
      without probe_id (chosen probe_id (is_old_probe cutoff) limit db.probe_results)
        db.probe_results in
    (length db.probe_results - length rest, record db { probe_results = rest })

abbrev pub awaits : ℕ → Alert → Bool
awaits i a = a.event_id == i && is_pending a.status

-- An event that is old and has no pending alert.
abbrev pub is_old_event : Instant → List Alert → Event → Bool
is_old_event cutoff alerts e = ltb e.created_at cutoff && is_none (find (awaits e.id) alerts)

-- The alerts of these events go with them (ON DELETE CASCADE).
abbrev pub without_events : List ℕ → Db → Db
without_events ids db = record db {
  events = without event_id ids db.events;
  alerts = select (λ a. not (elem a.event_id ids)) db.alerts;
}

unfoldable pub delete_old_events_batch : Instant → ℕ → Db → ℕ × Db
delete_old_events_batch cutoff limit db =
    let db' = without_events (chosen event_id (is_old_event cutoff db.alerts) limit db.events) db in
    (length db.events - length db'.events, db')
