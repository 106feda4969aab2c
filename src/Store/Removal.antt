-- ===== src/Store/Removal.antt =====
-- Rows that go with their alerts: what the retention and the deletion of a monitor keep of the
-- outbox.
use mathlib.Core.Path.{subst}
use ping.Prelude.{
  ℕ, zero, suc, ◌+◌, ◌<◌, ltb, arith, ◌≡◌, refl, sym, ap, ◌∙◌, inl, inr, Bool, not, List, [], ◌∷◌,
  map, select, Bool-cases, All-select_of, ◌==◌,
}
use ping.Schedule.{Instant}
use ping.Db.{Db}
use ping.Db.Result.{ok, unfinished}
use ping.Db.Batches.{
  elem, chosen, without_events, event_id, is_old_event, delete_old_events_batch,
  delete_old_checkins_batch, delete_old_probe_results_batch,
}
use ping.Db.Edits.{without_monitor}
use ping.Store.{Op}
use ping.Store.Keeps.{Keeps, exec-Keeps, fail_with-Keeps, >>=-Keeps}
use ping.Store.Pages.Order.{IsOrdered-select}
use ping.Store.Promise.{IsOutbox, is_alerting, is_transition_alert, event_key, alert_key}
use ping.Store.Rollup.{prune_old_data, drain_batches, batch, after_batch, unless_cancelled}

-- A selection by the key is one of the keys.
map-select_key :
    {A K : Type 0} (key : A → K) (k : K → Bool) (p : A → Bool) (xs : List A)
    → map key (select p (select (λ x. k (key x)) xs)) ≡ select k (map key (select p xs))
unfolding select
map-select_key key k p [] = refl
map-select_key key k p (x ∷ xs) = elim (Bool-cases (k (key x))) [
  | inl e ↦ elim (Bool-cases (p x)) [
    | inl q ↦ rw (e, q) (rw e (ap (λ r. key x ∷ r) (map-select_key key k p xs)))
    | inr q ↦ rw (e, q) (map-select_key key k p xs)
  ]
  | inr e ↦ elim (Bool-cases (p x)) [
    | inl q ↦ rw (e, q) (rw e (map-select_key key k p xs))
    | inr q ↦ rw (e, q) (map-select_key key k p xs)
  ]
]

-- Events and alerts that go by the event and the monitor that they are about.
pub removed-IsOutbox :
    (k : ℕ × ℕ → Bool) {d d' : Db}
    → IsOutbox d
    → d'.events ≡ select (λ e. k (event_key e)) d.events
    → d'.alerts ≡ select (λ a. k (alert_key a)) d.alerts
    → d'.next_event_id ≡ d.next_event_id
    → IsOutbox d'
removed-IsOutbox k {d = d} o e a n = record {
  paired =
      rw (e, a)
        (map-select_key alert_key k is_transition_alert d.alerts
          ∙ ap (select k) o.paired
          ∙ sym (map-select_key event_key k is_alerting d.events));
  fresh =
      rw (e, n)
        (All-select_of (λ f. f.id < d.next_event_id) (λ f. k (event_key f)) d.events o.fresh);
  ordered = rw e (IsOrdered-select (λ f. k (event_key f)) d.events o.ordered);
}

without_events-IsOutbox : (ids : List ℕ) (d : Db) → IsOutbox d → IsOutbox (without_events ids d)
without_events-IsOutbox ids d o = removed-IsOutbox (λ x. not (elem x.0 ids)) o refl refl refl

pub without_monitor-IsOutbox :
    (i user : ℕ) (d : Db) → IsOutbox d → IsOutbox (without_monitor i user d)
without_monitor-IsOutbox i user d o = removed-IsOutbox (λ x. not (x.1 == i)) o refl refl refl

second_of : (r : ℕ × Db) (n : ℕ) (d : Db) → ok r ≡ ok (n, d) → r.1 ≡ d
second_of r n d e = ground (arith, e)

module _ (is_cancelled : ℕ → Bool) (limit : ℕ) where
  after-Keeps :
      (P : Db → Type 0) (total : ℕ) (next : Op ℕ) (n : ℕ)
      → Keeps P next
      → Keeps P (after_batch is_cancelled limit total next n)
  after-Keeps P total next n h c p = elim (Bool-cases (ltb n limit)) [
    | inl e ↦ rw (e, after_batch) p
    | inr e ↦ rw (e, after_batch) (h c p)
  ]

  unless-Keeps :
      (P : Db → Type 0) (m : Op ℕ) → Keeps P m → Keeps P (unless_cancelled is_cancelled m)
  unless-Keeps P m h c p = elim (Bool-cases (is_cancelled c.step)) [
    | inl e ↦ rw e p
    | inr e ↦ rw e (h c p)
  ]

  drain-Keeps :
      (P : Db → Type 0) (f : Db → ℕ × Db)
      → ((d : Db) → P d → P (f d).1)
      → (fuel total : ℕ) → Keeps P (drain_batches is_cancelled limit fuel (batch f) total)
  unfolding drain_batches
  drain-Keeps P f keep zero total = fail_with-Keeps P ℕ unfinished
  drain-Keeps P f keep (suc fuel) total = unless-Keeps P _ (
      >>=-Keeps P (batch f) _
        (exec-Keeps P (λ db. ok (f db)) (λ d n d' e p. subst P (second_of (f d) n d' e) (keep d p)))
        (λ n. after-Keeps P (total + n) _ n (drain-Keeps P f keep fuel (total + n))))

  -- The retention keeps one alert for each event that owes a notification, whatever statements fail
  -- and wherever it is cancelled.
  pub prune-IsOutbox :
      (fuel : ℕ) (cutoff : Instant) → Keeps IsOutbox (prune_old_data is_cancelled limit fuel cutoff)
  unfolding prune_old_data delete_old_checkins_batch delete_old_probe_results_batch
      delete_old_events_batch
  prune-IsOutbox fuel cutoff =
      >>=-Keeps IsOutbox _ _
        (drain-Keeps IsOutbox (delete_old_checkins_batch cutoff limit)
          (λ d o. record { paired = o.paired; fresh = o.fresh; ordered = o.ordered }) fuel 0)
        (λ _.
          >>=-Keeps IsOutbox _ _
            (drain-Keeps IsOutbox (delete_old_probe_results_batch cutoff limit)
              (λ d o. record { paired = o.paired; fresh = o.fresh; ordered = o.ordered }) fuel 0)
            (λ _.
              >>=-Keeps IsOutbox _ _
                (drain-Keeps IsOutbox (delete_old_events_batch cutoff limit)
                  (λ d o.
                    without_events-IsOutbox
                      (chosen event_id (is_old_event cutoff d.alerts) limit d.events) d o)
                  fuel 0)
                (λ _ c o. o)))
