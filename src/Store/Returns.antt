-- ===== src/Store/Returns.antt =====
-- Runs in which no statement fails for the driver's reason: what an operation then returns.
use mathlib.Core.Option.{some-injective}
use ping.Prelude.{
  ℕ, ◌≡◌, refl, ap, ◌∙◌, Bool, true, false, inl, inr, Option, none, some, List, [], ◌∷◌, ◌++◌, find,
  is_some, Bool-cases, arith, ◌==◌, ==_iff, map_option, if◌then◌else◌,
}
use ping.Db.{Db, Monitor, Event, EventType, Message, Meta, empty, has_id, has_monitor}
use ping.Db.Result.{Result, ok}
use ping.Db.Keys.{find-update}
use ping.Db.Monitors.{set_monitor}
use ping.Db.Outbox.{insert_event, insert_alert, has_event_id}
use ping.Store.{
  Conn, Op, tick, pure, ◌>>=◌, exec, query, change, with_tx, of_result, continue_with,
  missing_as_not_found,
}
use ping.Store.Checkin.{record_event_meta, record_event, record_transition}
use ping.Store.Timeline.{noted_event, owed_alert, noted, paged}
use ping.Store.Tx.{Clean}

-- On any connection without faults, from these tables, the operation returns the value and leaves
-- the other tables.
abbrev pub Returns : {A : Type 0} → Op A → Db → A → Db → Type 0
Returns m d a d' =
    (c : Conn) → c.db ≡ d → Clean c → (c' : Conn) × (m c ≡ (ok a, c')) × (c'.db ≡ d') × Clean c'

pub pure-Returns : {A : Type 0} (a : A) (d : Db) → Returns (pure a) d a d
pure-Returns a d c e k = (c, refl, e, k)

pub exec-Returns :
    {A : Type 0} (f : Db → Result (A × Db)) (d : Db) (a : A) (d' : Db)
    → f d ≡ ok (a, d')
    → Returns (exec f) d a d'
unfolding exec
exec-Returns f d a d' q c e k = (record (tick c) { db = d' }, rw (k c.step, e, q) refl, refl, k)

pub change-Returns : (f : Db → Db) (d : Db) → Returns (change f) d tt (f d)
change-Returns f d = exec-Returns _ d tt (f d) refl

pub query-Returns : {A : Type 0} (f : Db → A) (d : Db) → Returns (query f) d (f d) d
query-Returns f d = exec-Returns _ d (f d) d refl

pub >>=-Returns :
    {A B : Type 0} (m : Op A) (f : A → Op B) (d : Db) (a : A) (d₁ : Db) (b : B) (d' : Db)
    → Returns m d a d₁
    → Returns (f a) d₁ b d'
    → Returns (m >>= f) d b d'
unfolding ◌>>=◌
>>=-Returns {A = A} m f d a d₁ b d' h k c e clean =
    let (c₁, p, q, clean₁) = h c e clean in
    let (c₂, p₂, q₂, clean₂) = k c₁ q clean₁ in
    (c₂, ap (λ (r : Result A × Conn). continue_with r.0 f r.1) p ∙ p₂, q₂, clean₂)

pub with_tx-Returns :
    {A : Type 0} (m : Op A) (d : Db) (a : A) (d' : Db)
    → Returns m d a d'
    → Returns (with_tx m) d a d'
unfolding with_tx
with_tx-Returns m d a d' h c e k =
    let (c₁, p, q, clean) = h (tick c) e k in
    (tick c₁, rw (k c.step, p) (rw (clean c₁.step) refl), q, clean)

pub missing-Returns :
    {A : Type 0} (m : Op A) (d : Db) (a : A) (d' : Db)
    → Returns m d a d'
    → Returns (missing_as_not_found m) d a d'
missing-Returns m d a d' h c e k = let (c₁, p, q, clean) = h c e k in (c₁, rw p refl, q, clean)

pub of_result-Returns :
    {A : Type 0} (r : Result A) (d : Db) (a : A) → r ≡ ok a → Returns (of_result r) d a d
of_result-Returns r d a h c e k = (c, rw h refl, e, k)

-- The event that was written last is found.
last_event :
    (n : ℕ) (es : List Event) (e : Event)
    → e.id ≡ n
    → is_some (find (has_event_id n) (es ++ e ∷ [])) ≡ true
unfolding find
last_event n [] e h = rw ((==_iff e.id n).1 h) refl
last_event n (x ∷ es) e h = ground (arith, last_event n es e h)

pub event_meta-Returns :
    (i : ℕ) (t : EventType) (msg : Message) (meta : Meta) (d : Db)
    → has_monitor i d ≡ true
    → Returns (record_event_meta i t msg meta) d (noted_event i t msg meta d) (noted i t msg meta d)
unfolding record_event_meta insert_event
event_meta-Returns i t msg meta d h = exec-Returns _ d _ _ (rw h refl)

pub event-Returns :
    (i : ℕ) (t : EventType) (msg : Message) (d : Db)
    → has_monitor i d ≡ true
    → Returns (record_event i t msg) d (noted_event i t msg empty d) (noted i t msg empty d)
unfolding record_event
event-Returns i t msg d h = event_meta-Returns i t msg empty d h

pub transition-Returns :
    (i : ℕ) (t : EventType) (msg : Message) (d : Db)
    → has_monitor i d ≡ true
    → Returns (record_transition i t msg) d tt (paged i t msg empty d)
unfolding record_transition insert_alert
transition-Returns i t msg d h =
    >>=-Returns _ _ d (noted_event i t msg empty d) (noted i t msg empty d) tt _
      (event-Returns i t msg d h)
      (>>=-Returns _ _ _ (owed_alert i d) _ tt _
        (exec-Returns _ _ _ _
          (rw (h, last_event d.next_event_id d.events (noted_event i t msg empty d) refl) refl))
        (pure-Returns tt _))

is_some-map :
    (b : Bool) (f : Monitor → Monitor) (x : Option Monitor)
    → is_some x ≡ true
    → is_some (if b then map_option f x else x) ≡ true
is_some-map true f (some m) h = refl
is_some-map true f none h = absurd (ground arith)
is_some-map false f x h = h

-- A change of rows that keeps their ids keeps the monitors that exist.
pub has_monitor-set :
    (i j : ℕ) (f : Monitor → Monitor) (d : Db)
    → ((m : Monitor) → (f m).id ≡ m.id)
    → has_monitor j d ≡ true
    → has_monitor j (set_monitor i f d) ≡ true
has_monitor-set i j f d keep h =
    ap is_some (find-update i j f keep d.monitors)
    ∙ is_some-map (i == j) f (find (has_id j) d.monitors) h

-- A row of the table is there to be referred to.
pub has_monitor-found :
    (p : Monitor → Bool) (ms : List Monitor) (m : Monitor)
    → find p ms ≡ some m
    → is_some (find (has_id m.id) ms) ≡ true
unfolding find
has_monitor-found p [] m h = absurd (ground arith)
has_monitor-found p (x ∷ ms) m h = elim (Bool-cases (p x)) [
  | inl e ↦
      rw ((==_iff x.id m.id).1 (ap (λ (y : Monitor). y.id) (some-injective _ _ (rw e at h)))) refl
  | inr e ↦ elim (Bool-cases (x.id == m.id)) [
    | inl q ↦ rw q refl
    | inr q ↦ rw q (has_monitor-found p ms m (rw e at h))
  ]
]
