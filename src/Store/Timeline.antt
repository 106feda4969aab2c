-- ===== src/Store/Timeline.antt =====
-- The timeline and the outbox as the store's operations extend them: one row at the end of each
-- table (recordEvent and recordTransition of backend/store/checkin.go).
use ping.Prelude.{ℕ, ◌+◌, ◌≡◌, ◌∙◌, Bool, true, if◌then◌else◌, false, none, [], ◌∷◌, ◌++◌, arith}
use ping.Db.{Db, Event, EventType, Alert, Message, Meta, empty, pending}
use ping.Db.Result.{ok}
use ping.Db.Outbox.{insert_event, insert_alert, default_channel}
use ping.Store.{pure, ◌>>◌}
use ping.Store.Tx.{Faithful, exec-Faithful, pure-Faithful, >>=-Faithful}
use ping.Store.Steps.{Ensures, weaken, pure-Ensures, exec-Ensures, >>=-Ensures}
use ping.Store.Checkin.{record_transition, record_event, record_event_meta}

abbrev pub noted_event : ℕ → EventType → Message → Meta → Db → Event
noted_event i t msg meta db = record {
  id = db.next_event_id;
  monitor_id = i;
  type = t;
  message = msg;
  meta = meta;
  created_at = db.now;
}

abbrev pub owed_alert : ℕ → Db → Alert
owed_alert i db = record {
  id = db.next_alert_id;
  monitor_id = i;
  event_id = db.next_event_id;
  channel = default_channel;
  status = pending;
  attempts = 0;
  next_attempt_at = db.now;
  sent_at = none;
  created_at = db.now;
  is_reminder = false;
}

-- The tables with one more event, and with the event and its alert.
abbrev pub noted : ℕ → EventType → Message → Meta → Db → Db
noted i t msg meta db = record db {
  events = db.events ++ noted_event i t msg meta db ∷ [];
  next_event_id = db.next_event_id + 1;
}

abbrev pub paged : ℕ → EventType → Message → Meta → Db → Db
paged i t msg meta db = record db {
  events = db.events ++ noted_event i t msg meta db ∷ [];
  next_event_id = db.next_event_id + 1;
  alerts = db.alerts ++ owed_alert i db ∷ [];
  next_alert_id = db.next_alert_id + 1;
}

pub insert_event-ok :
    (i : ℕ) (t : EventType) (msg : Message) (meta : Meta) (db db' : Db) (e : Event)
    → insert_event i t msg meta db ≡ ok (e, db')
    → (e ≡ noted_event i t msg meta db) × (db' ≡ noted i t msg meta db)
unfolding insert_event
insert_event-ok i t msg meta db db' e h = ground arith

pub insert_alert-ok :
    (i k : ℕ) (db db' : Db) (a : Alert)
    → insert_alert i k default_channel db ≡ ok (a, db')
    → (a ≡ record (owed_alert i db) { event_id = k })
      × (db' ≡ record db { alerts = db.alerts ++ a ∷ []; next_alert_id = db.next_alert_id + 1 })
unfolding insert_alert
insert_alert-ok i k db db' a h = ground arith

pub event_meta-Ensures :
    (i : ℕ) (t : EventType) (msg : Message) (meta : Meta)
    → Ensures
        (record_event_meta i t msg meta)
        (λ d e d'. (e ≡ noted_event i t msg meta d) × (d' ≡ noted i t msg meta d))
unfolding record_event_meta
event_meta-Ensures i t msg meta =
    weaken (exec-Ensures (insert_event i t msg meta))
      (λ d e d' h. insert_event-ok i t msg meta d d' e h)

pub event-Ensures :
    (i : ℕ) (t : EventType) (msg : Message)
    → Ensures
        (record_event i t msg)
        (λ d e d'. (e ≡ noted_event i t msg empty d) × (d' ≡ noted i t msg empty d))
unfolding record_event
event-Ensures i t msg = event_meta-Ensures i t msg empty

transition_post :
    (i : ℕ) (t : EventType) (msg : Message) (d : Db) (u : Unit {0}) (d' : Db)
    → (e : Event) × (d₁ : Db) × ((e ≡ noted_event i t msg empty d) × (d₁ ≡ noted i t msg empty d))
      × ((a : Alert) × (d₂ : Db) × (insert_alert i e.id default_channel d₁ ≡ ok (a, d₂))
          × ((u ≡ tt) × (d' ≡ d₂)))
    → d' ≡ paged i t msg empty d
transition_post i t msg d u d' (e, d₁, (p, q), (a, d₂, r, (_, s))) =
    ground (arith, insert_alert-ok i e.id d₁ d₂ a r)

pub transition-Ensures :
    (i : ℕ) (t : EventType) (msg : Message)
    → Ensures (record_transition i t msg) (λ d u d'. d' ≡ paged i t msg empty d)
unfolding record_transition
transition-Ensures i t msg =
    weaken
      (>>=-Ensures (event-Ensures i t msg) (λ e.
        >>=-Ensures (exec-Ensures (insert_alert i e.id default_channel)) (λ a. pure-Ensures tt)))
      (transition_post i t msg)

-- A transition and its answer, or another answer.
module _ {A : Type 0} (i : ℕ) (t : EventType) (msg : Message) (r₁ r₂ : A) where
  pub then_page-Ensures :
      Ensures
        (record_transition i t msg >> pure r₁)
        (λ d r d'. (r ≡ r₁) × (d' ≡ paged i t msg empty d))
  then_page-Ensures =
      weaken (>>=-Ensures (transition-Ensures i t msg) (λ u. pure-Ensures r₁))
        (λ d r d' (u, d₁, p, (q, s)). (q, s ∙ p))

  pub page_if-Ensures :
      (b : Bool)
      → Ensures
          (if b then record_transition i t msg >> pure r₁ else pure r₂)
          (λ d r d'. (r ≡ (if b then r₁ else r₂)) × (d' ≡ (if b then paged i t msg empty d else d)))
  page_if-Ensures true = then_page-Ensures
  page_if-Ensures false = pure-Ensures r₂

  pub page_unless-Ensures :
      (b : Bool)
      → Ensures
          (if b then pure r₂ else record_transition i t msg >> pure r₁)
          (λ d r d'. (r ≡ (if b then r₂ else r₁)) × (d' ≡ (if b then d else paged i t msg empty d)))
  page_unless-Ensures true = pure-Ensures r₂
  page_unless-Ensures false = then_page-Ensures

pub event_meta-Faithful :
    (i : ℕ) (t : EventType) (msg : Message) (meta : Meta)
    → Faithful (record_event_meta i t msg meta)
unfolding record_event_meta
event_meta-Faithful i t msg meta = exec-Faithful (insert_event i t msg meta)

pub event-Faithful : (i : ℕ) (t : EventType) (msg : Message) → Faithful (record_event i t msg)
unfolding record_event
event-Faithful i t msg = event_meta-Faithful i t msg empty

pub transition-Faithful :
    (i : ℕ) (t : EventType) (msg : Message) → Faithful (record_transition i t msg)
unfolding record_transition
transition-Faithful i t msg =
    >>=-Faithful (event-Faithful i t msg)
      (λ e. >>=-Faithful (exec-Faithful _) (λ a. pure-Faithful tt))
