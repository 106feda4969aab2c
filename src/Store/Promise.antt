-- ===== src/Store/Promise.antt =====
-- The outbox: what the tables of events and alerts promise one another.
use ping.Prelude.{
  update_where, map-select_update, ℕ, ◌+◌, ◌<◌, ◌≡◌, refl, sym, ap, ◌∙◌, Bool, true, false, not,
  List, [], ◌∷◌, ◌++◌, map, select, select-snoc_keep, select-snoc_drop, All, All-append, arith,
}
use mathlib.Core.List.{map-append}
use ping.Store.Timeline.{noted_event, noted, paged, owed_alert}
use ping.Db.{Monitor, Db, Event, EventType, up, down, tls_expiry, Alert, Message, Meta}

abbrev alerts_on : EventType → Bool
alerts_on up = true
alerts_on down = true
alerts_on tls_expiry = true
alerts_on _ = false

-- The events that owe a notification.
abbrev pub is_alerting : Event → Bool
is_alerting e = alerts_on e.type

abbrev pub is_transition_alert : Alert → Bool
is_transition_alert a = not a.is_reminder

abbrev pub event_key : Event → ℕ × ℕ
event_key e = (e.id, e.monitor_id)

abbrev pub alert_key : Alert → ℕ × ℕ
alert_key a = (a.event_id, a.monitor_id)

-- The ids of the timeline grow, so none occurs twice.
abbrev pub IsOrdered : List Event → Type 0
IsOrdered [] = Unit
IsOrdered (e ∷ es) = All (λ f. e.id < f.id) es × IsOrdered es

-- Each event that owes a notification has one alert, with the same monitor and in the same order,
-- and no other alert but a reminder exists; a reminder is about an event of the timeline.
pub record IsOutbox (db : Db) : Type 0 where
  pub paired :
      map alert_key (select is_transition_alert db.alerts)
      ≡ map event_key (select is_alerting db.events)
  pub fresh : All (λ e. e.id < db.next_event_id) db.events
  pub ordered : IsOrdered db.events

raise : (n : ℕ) (es : List Event) → All (λ e. e.id < n) es → All (λ e. e.id < n + 1) es
raise n [] h = tt
raise n (e ∷ es) (p, h) = (omega arith, raise n es h)

fresh-append :
    (n : ℕ) (es : List Event) (e : Event)
    → All (λ f. f.id < n) es
    → e.id ≡ n
    → All (λ f. f.id < n + 1) (es ++ e ∷ [])
fresh-append n es e h p =
    All-append (λ f. f.id < n + 1) es (e ∷ []) (raise n es h) (omega arith, tt)

IsOrdered-append :
    (n : ℕ) (es : List Event) (e : Event)
    → IsOrdered es
    → All (λ f. f.id < n) es
    → e.id ≡ n
    → IsOrdered (es ++ e ∷ [])
IsOrdered-append n [] e o h p = (tt, tt)
IsOrdered-append n (f ∷ es) e (a, o) (q, h) p =
    (All-append (λ g. f.id < g.id) es (e ∷ []) a (omega arith, tt), IsOrdered-append n es e o h p)

module _ (i : ℕ) (t : EventType) (msg : Message) (meta : Meta) (d : Db) (o : IsOutbox d) where
  -- An event that owes nothing keeps the promise.
  pub noted-IsOutbox : alerts_on t ≡ false → IsOutbox (noted i t msg meta d)
  noted-IsOutbox q = record {
    paired =
        o.paired
        ∙ ap (map event_key)
            (sym (select-snoc_drop is_alerting d.events (noted_event i t msg meta d) q));
    fresh = fresh-append d.next_event_id d.events (noted_event i t msg meta d) o.fresh refl;
    ordered =
        IsOrdered-append d.next_event_id d.events (noted_event i t msg meta d) o.ordered o.fresh
          refl;
  }

  -- So does an event that owes a notification, with its alert.
  pub paged-IsOutbox : alerts_on t ≡ true → IsOutbox (paged i t msg meta d)
  paged-IsOutbox q = record {
    paired = rw (select-snoc_keep is_transition_alert d.alerts (owed_alert i d) refl) (
        rw (select-snoc_keep is_alerting d.events (noted_event i t msg meta d) q)
          (rw (map-append alert_key, map-append event_key, o.paired)));
    fresh = fresh-append d.next_event_id d.events (noted_event i t msg meta d) o.fresh refl;
    ordered =
        IsOrdered-append d.next_event_id d.events (noted_event i t msg meta d) o.ordered o.fresh
          refl;
  }

-- So does any change of the monitors.
pub moved-IsOutbox :
    {ms : List Monitor} {d : Db} → IsOutbox d → IsOutbox (record d { monitors = ms })
moved-IsOutbox o = record { paired = o.paired; fresh = o.fresh; ordered = o.ordered }

-- So does any change of alerts that leaves what they are about.
pub set_alerts-IsOutbox :
    (p : Alert → Bool) (f : Alert → Alert)
    → ((a : Alert) → (f a).is_reminder ≡ a.is_reminder)
    → ((a : Alert) → alert_key (f a) ≡ alert_key a)
    → {d : Db} → IsOutbox d
    → IsOutbox (record d { alerts = update_where p f d.alerts })
set_alerts-IsOutbox p f e h {d = d} o = record {
  paired =
      map-select_update alert_key is_transition_alert p f (λ a. ap not (e a)) h d.alerts ∙ o.paired;
  fresh = o.fresh;
  ordered = o.ordered;
}

-- So does one more reminder.
pub reminded-IsOutbox :
    (a : Alert) {n : ℕ} {d : Db}
    → a.is_reminder ≡ true
    → IsOutbox d
    → IsOutbox (record d { alerts = d.alerts ++ a ∷ []; next_alert_id = n })
reminded-IsOutbox a {d = d} e o = record {
  paired =
      ap (map alert_key) (select-snoc_drop is_transition_alert d.alerts a (ap not e)) ∙ o.paired;
  fresh = o.fresh;
  ordered = o.ordered;
}
