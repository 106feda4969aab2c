-- ===== src/Store/Rollup/Timeline.antt =====
-- The batches of events: old events go with their alerts, unless an alert is pending.
use mathlib.Core.Path.{subst, fun_ext}
use ping.Prelude.{
  ℕ, ◌+◌, ◌-◌, ◌*◌, ◌<◌, ◌≡◌, refl, sym, ap, ◌∙◌, Bool, true, false, not, ◌&&◌, List, [], ◌∷◌, map,
  select, find, length, ltb, is_none, All, All-take, All-select, arith,
}
use ping.Schedule.{Instant}
use ping.Db.{Db, Event, Alert}
use ping.Db.Outbox.{is_pending}
use ping.Db.Batches.{
  elem, chosen, without, event_id, awaits, is_old_event, without_events, delete_old_events_batch,
}
use ping.Db.Batches.Laws.{
  IsDistinct, IsDistinct-select, length-drop, batch_kept, batch_left, batch_count, select_rest,
  select_weaker,
}
use ping.Store.Returns.{Returns}
use ping.Store.Rollup.{drain_batches, batch}
use ping.Store.Rollup.Drain.{Deletes, drain-Returns}

abbrev pub pending_of : List Alert → List Alert
pending_of = select (λ a. is_pending a.status)

-- Whether an event awaits an alert is seen from the pending alerts.
awaited_pending :
    (i : ℕ) (as' : List Alert) → find (awaits i) as' ≡ find (awaits i) (pending_of as')
unfolding find select
awaited_pending i [] = refl
awaited_pending i (a ∷ as') = ground (arith, awaited_pending i as')

old_event_same :
    (cutoff : Instant) (as' bs : List Alert)
    → pending_of as' ≡ pending_of bs
    → is_old_event cutoff as' ≡ is_old_event cutoff bs
old_event_same cutoff as' bs h = fun_ext (λ e.
    ap (λ x. ltb e.created_at cutoff && is_none x)
      (awaited_pending e.id as' ∙ ap (find (awaits e.id)) h ∙ sym (awaited_pending e.id bs)))

not_awaited :
    (a : Alert) (as' : List Alert) (is : List ℕ)
    → All (λ i. is_none (find (awaits i) (a ∷ as')) ≡ true) is
    → (is_pending a.status ≡ true → not (elem a.event_id is) ≡ true)
      × All (λ i. is_none (find (awaits i) as') ≡ true) is
unfolding find
not_awaited a as' [] h = (λ _. refl, tt)
not_awaited a as' (i ∷ is) (e, h) =
    let (p, q) = not_awaited a as' is h in (λ k. ground (arith, e, p k), (ground (arith, e), q))

pending_spared :
    (as' : List Alert) (is : List ℕ)
    → All (λ i. is_none (find (awaits i) as') ≡ true) is
    → All (λ a. is_pending a.status ≡ true → not (elem a.event_id is) ≡ true) as'
pending_spared [] is h = tt
pending_spared (a ∷ as') is h = let (p, q) = not_awaited a as' is h in (p, pending_spared as' is q)

idle_ids :
    (cutoff : Instant) (as' : List Alert) (es : List Event)
    → All (λ e. is_old_event cutoff as' e ≡ true) es
    → All (λ i. is_none (find (awaits i) as') ≡ true) (map event_id es)
idle_ids cutoff as' [] h = tt
idle_ids cutoff as' (e ∷ es) (p, h) = (ground (arith, p), idle_ids cutoff as' es h)

-- What a batch deletes leaves the pending alerts.
pending_kept :
    (cutoff : Instant) (n : ℕ) (d : Db)
    → pending_of
        (without_events (chosen event_id (is_old_event cutoff d.alerts) n d.events) d).alerts
      ≡ pending_of d.alerts
pending_kept cutoff n d = select_weaker _ _ d.alerts (
    pending_spared d.alerts _ (
      idle_ids cutoff d.alerts _
        (All-take _ n _ (All-select (is_old_event cutoff d.alerts) d.events))))

module _ (cutoff : Instant) (limit : ℕ) where
  abbrev is_stale : Db → Event → Bool
  is_stale d = is_old_event cutoff d.alerts

  -- The events that are not old or that await an alert are all there, with the pending alerts, and
  -- so are the other tables.
  abbrev pub Spared : Db → Db → Type 0
  Spared d₀ d =
      IsDistinct event_id d.events
      × (pending_of d.alerts ≡ pending_of d₀.alerts)
      × (select (λ e. not (is_stale d₀ e)) d.events ≡ select (λ e. not (is_stale d₀ e)) d₀.events)
      × (d ≡ record d₀ { events = d.events; alerts = d.alerts })

  -- A batch is the one that the first tables choose.
  same_batch :
      (d₀ d : Db)
      → pending_of d.alerts ≡ pending_of d₀.alerts
      → delete_old_events_batch cutoff limit d ≡ (
        length d.events
            - length (without event_id (chosen event_id (is_stale d₀) limit d.events) d.events),
        without_events (chosen event_id (is_stale d₀) limit d.events) d,
      )
  unfolding delete_old_events_batch
  same_batch d₀ d h =
      ap
        (λ (p : Event → Bool).
          let ids = chosen event_id p limit d.events in
          let rest = without_events ids d in (length d.events - length rest.events, rest))
        (old_event_same cutoff d.alerts d₀.alerts h)

  events-Deletes :
      (d₀ : Db)
      → Deletes limit
          (λ d. length (select (is_stale d₀) d.events))
          (Spared d₀)
          (delete_old_events_batch cutoff limit)
  events-Deletes d₀ = record {
    count = λ d (h, q, _, _).
        ap (λ (r : ℕ × Db). r.0) (same_batch d₀ d q)
        ∙ batch_count event_id (is_stale d₀) limit d.events h;
    rest = λ d (h, q, _, _).
        ap (λ (r : ℕ × Db). length (select (is_stale d₀) r.1.events)) (same_batch d₀ d q)
        ∙ ap length (batch_left event_id (is_stale d₀) limit d.events h)
        ∙ length-drop limit (select (is_stale d₀) d.events);
    keep = λ d (h, q, e, s).
        subst (Spared d₀) (sym (ap (λ (r : ℕ × Db). r.1) (same_batch d₀ d q))) (
          IsDistinct-select event_id _ d.events h,
          subst
                (λ (p : Event → Bool).
                  pending_of (without_events (chosen event_id p limit d.events) d).alerts
                  ≡ pending_of d.alerts)
                (old_event_same cutoff d.alerts d₀.alerts q) (pending_kept cutoff limit d)
              ∙ q,
          batch_kept event_id (is_stale d₀) limit d.events h ∙ e,
          ap (without_events (chosen event_id (is_stale d₀) limit d.events)) s,
        );
  }

  -- The loop deletes the old events that await no alert, and of the alerts no pending one.
  pub events-Returns :
      (is_cancelled : ℕ → Bool)
      → ((n : ℕ) → is_cancelled n ≡ false)
      → 0 < limit
      → (fuel : ℕ) (d : Db) → length (select (is_stale d) d.events) < fuel * limit
      → IsDistinct event_id d.events
      → (d' : Db) × Returns
          (drain_batches is_cancelled limit fuel (batch (delete_old_events_batch cutoff limit)) 0)
          d
          (length (select (is_stale d) d.events))
          d'
        × (d'.events ≡ select (λ e. not (is_stale d e)) d.events)
        × (pending_of d'.alerts ≡ pending_of d.alerts)
        × (d' ≡ record d { events = d'.events; alerts = d'.alerts })
  events-Returns is_cancelled go some_rows fuel d l h =
      let (d', runs, none_left, (_, pend, kept, same)) =
        drain-Returns is_cancelled go limit some_rows (λ e. length (select (is_stale d) e.events))
          (Spared d) (delete_old_events_batch cutoff limit) (events-Deletes d) fuel 0 d l
          (h, refl, refl, refl) in
      let loop =
        drain_batches is_cancelled limit fuel (batch (delete_old_events_batch cutoff limit)) 0 in
      let sum : 0 + length (select (is_stale d) d.events) ≡ length (select (is_stale d) d.events) =
        omega arith in
      (
        d',
        subst (λ v. Returns loop d v d') sum runs,
        sym (select_rest (is_stale d) d'.events none_left) ∙ kept,
        pend,
        same,
      )
