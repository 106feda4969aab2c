-- ===== src/Store/Scheduler/Outcome.antt =====
-- The properties of a tick: what it counts, what it writes, and that it is one transaction.
use ping.Prelude.{
  ℕ, ◌+◌, ◌≤◌, ◌≡◌, refl, ap, Option, none, some, List, [], ◌∷◌, Bool, true, false, if◌then◌else◌,
  length-snoc, length-take_le, length, arith, All, All-select, All-take,
}
use ping.Schedule.{Instant}
use ping.Db.{Db, Monitor, State, EventType, text, empty}
use ping.Db.Result.{ok}
use ping.Db.Sort.{All-sort_by}
use ping.Db.Monitors.{claim_due_monitors, is_due, is_armed}
use ping.Store.{Conn}
use ping.Store.Steps.{weaken}
use ping.Store.Tx.{>>=-Faithful, exec-Faithful, IsAtomic, with_tx-IsAtomic, with_tx-keeps}
use ping.Store.Timeline.{noted_event, owed_alert}
use ping.Store.Promise.{IsOutbox, noted-IsOutbox, paged-IsOutbox, moved-IsOutbox}
use ping.Store.Scheduler.{EvalResult, evaluate_due_monitors}
use ping.Store.Scheduler.Walk.{
  walk, walk_deadline, walk_state, tally, tally_one, start, evaluate-Ensures,
}
use ping.Store.Scheduler.Aborts.{all-Faithful}

-- The claim picks monitors that are due, and no more than the limit.
claim_due :
    (now : Instant) (limit : ℕ) (locked : ℕ → Bool) (d : Db)
    → All (λ m. is_due now locked m ≡ true) (claim_due_monitors now limit locked d)
unfolding claim_due_monitors
claim_due now limit locked d =
    All-take _ limit _ (All-sort_by _ _ _ (All-select (is_due now locked) d.monitors))

claim_size :
    (now : Instant) (limit : ℕ) (locked : ℕ → Bool) (d : Db)
    → length (claim_due_monitors now limit locked d) ≤ limit
unfolding claim_due_monitors
claim_size now limit locked d = length-take_le limit _

abbrev is_late : State → Bool
is_late State.late = true
is_late _ = false

abbrev lates : List Monitor → ℕ
lates [] = 0
lates (m ∷ ms) = (if is_late m.state then 1 else 0) + lates ms

-- A monitor that can be due.
abbrev IsArmed : Monitor → Type 0
IsArmed m = (t : Instant) × (m.next_deadline ≡ some t) × (is_armed m.state ≡ true)

IsArmed-value :
    (now : Instant) (locked : ℕ → Bool) (m : Monitor) (o : Option Instant)
    → m.next_deadline ≡ o
    → is_due now locked m ≡ true
    → IsArmed m
unfolding is_due
IsArmed-value now locked m none e h = absurd (ground arith)
IsArmed-value now locked m (some t) e h = (t, e, ground arith)

state_promise :
    (s : State) (m : Monitor) (t : Instant) (d : Db) → IsOutbox d → IsOutbox (walk_state s m t d)
state_promise State.new m t d o = o
state_promise State.down m t d o = o
state_promise State.up m t d o =
    noted-IsOutbox m.id EventType.late (text "Monitor is late") empty _ (moved-IsOutbox o) refl
state_promise State.late m t d o =
    paged-IsOutbox m.id EventType.down (text "Monitor missed its deadline") empty _
      (moved-IsOutbox o) refl

one_promise :
    (o : Option Instant) (m : Monitor) (d : Db) → IsOutbox d → IsOutbox (walk_deadline o m d)
one_promise none m d o = o
one_promise (some t) m d o = state_promise m.state m t d o

IsArmed-All :
    (now : Instant) (locked : ℕ → Bool) (ms : List Monitor)
    → All (λ m. is_due now locked m ≡ true) ms
    → All IsArmed ms
IsArmed-All now locked [] h = tt
IsArmed-All now locked (m ∷ ms) (p, h) =
    (IsArmed-value now locked m m.next_deadline refl p, IsArmed-All now locked ms h)

abbrev Grown : ℕ → ℕ → Db → Db → Type 0
Grown events alerts d d' =
    (length d'.events ≡ length d.events + events) × (length d'.alerts ≡ length d.alerts + alerts)

abbrev one_if : Bool → ℕ
one_if b = if b then 1 else 0

-- One armed monitor: an event always, an alert if it was late.
walk_state-Grown :
    (s : State) (m : Monitor) (t : Instant) (d : Db)
    → is_armed s ≡ true
    → Grown 1 (one_if (is_late s)) d (walk_state s m t d)
walk_state-Grown State.new m t d a = cc
walk_state-Grown State.down m t d a = cc
walk_state-Grown State.up m t d a = (
  omega (
    arith,
    length-snoc d.events (noted_event m.id EventType.late (text "Monitor is late") empty d),
  ),
  omega arith,
)
walk_state-Grown State.late m t d a = (
  omega (
    arith,
    length-snoc d.events
        (noted_event m.id EventType.down (text "Monitor missed its deadline") empty d),
  ),
  omega (arith, length-snoc d.alerts (owed_alert m.id d)),
)

walk_deadline-Grown :
    (o : Option Instant) (t : Instant) (m : Monitor) (d : Db)
    → o ≡ some t
    → is_armed m.state ≡ true
    → Grown 1 (one_if (is_late m.state)) d (walk_deadline o m d)
walk_deadline-Grown none t m d e a = cc
walk_deadline-Grown (some u) t m d e a = walk_state-Grown m.state m u d a

walk_one-Grown :
    (m : Monitor) (d : Db)
    → IsArmed m
    → Grown 1 (one_if (is_late m.state)) d (walk_deadline m.next_deadline m d)
walk_one-Grown m d (t, e, a) = walk_deadline-Grown m.next_deadline t m d e a

walk-Grown :
    (ms : List Monitor) (d : Db) → All IsArmed ms → Grown (length ms) (lates ms) d (walk ms d)
unfolding walk
walk-Grown [] d h = omega arith
walk-Grown (m ∷ ms) d (p, h) =
    omega (arith, walk_one-Grown m d p, walk-Grown ms (walk_deadline m.next_deadline m d) h)

tally_one_lem :
    (m : Monitor) (res : EvalResult)
    → IsArmed m
    → ((tally_one m.next_deadline m.state res).claimed ≡ res.claimed)
      × ((tally_one m.next_deadline m.state res).to_down ≡ res.to_down + one_if (is_late m.state))
      × ((tally_one m.next_deadline m.state res).to_late
            + (tally_one m.next_deadline m.state res).to_down
          ≡ res.to_late + res.to_down + 1)
tally_one_lem m res (t, e, a) = ground arith

tally_lem :
    (ms : List Monitor) (res : EvalResult)
    → All IsArmed ms
    → ((tally ms res).claimed ≡ res.claimed)
      × ((tally ms res).to_down ≡ res.to_down + lates ms)
      × ((tally ms res).to_late + (tally ms res).to_down ≡ res.to_late + res.to_down + length ms)
unfolding tally
tally_lem [] res h = omega arith
tally_lem (m ∷ ms) res (p, h) =
    omega (arith, tally_one_lem m res p, tally_lem ms (tally_one m.next_deadline m.state res) h)

walk_promise : (ms : List Monitor) (d : Db) → IsOutbox d → IsOutbox (walk ms d)
unfolding walk
walk_promise [] d o = o
walk_promise (m ∷ ms) d o = walk_promise ms _ (one_promise m.next_deadline m d o)

module _ (now : Instant) (limit : ℕ) (locked : ℕ → Bool) where
  -- A tick that commits claims at most `limit` monitors and moves each of them: those that it counts as late
  -- and as down add up to the claimed. It writes one event for each claimed monitor, and one alert
  -- for each that went down, so the count of those is the number of alerts written.
  pub evaluate_counts :
      (c c' : Conn) (r : EvalResult)
      → evaluate_due_monitors now limit locked c ≡ (ok r, c')
      → (r.claimed ≤ limit)
        × (r.to_late + r.to_down ≡ r.claimed)
        × (length c'.db.events ≡ length c.db.events + r.claimed)
        × (length c'.db.alerts ≡ length c.db.alerts + r.to_down)
  unfolding start claim_due_monitors
  evaluate_counts c c' r h =
      let (p, q) = (evaluate-Ensures now limit locked).holds c c' r h in
      let rows = claim_due_monitors now limit locked c.db in
      let armed = IsArmed-All now locked rows (claim_due now limit locked c.db) in
      let (a, b, e) = tally_lem rows (start rows) armed in
      let (f, g) = walk-Grown rows c.db armed in
      omega (
        arith,
        ap (λ (x : EvalResult). x.claimed) p,
        ap (λ (x : EvalResult). x.to_late) p,
        ap (λ (x : EvalResult). x.to_down) p,
        ap (λ (x : Db). length x.events) q,
        ap (λ (x : Db). length x.alerts) q,
        claim_size now limit locked c.db,
      )

  -- Whatever statements fail, the outbox keeps its promise.
  pub evaluate-IsOutbox :
      (c : Conn) → IsOutbox c.db → IsOutbox (evaluate_due_monitors now limit locked c).1.db
  unfolding evaluate_due_monitors
  evaluate-IsOutbox = with_tx-keeps IsOutbox _ (
      weaken (evaluate-Ensures now limit locked)
        (λ d r d' (p, q) o. rw q (walk_promise (claim_due_monitors now limit locked d) d o)))

  -- A failure of the driver at any statement of a tick leaves the tables as they were, and otherwise
  -- the result and the tables are those of a run without faults.
  pub evaluate-IsAtomic : IsAtomic (evaluate_due_monitors now limit locked)
  unfolding evaluate_due_monitors
  evaluate-IsAtomic =
      with_tx-IsAtomic (>>=-Faithful (exec-Faithful _) (λ rows. all-Faithful rows _))
