-- ===== src/Store/Checkin/Outcome.antt =====
-- The properties of the ingest: the state machine of a ping, its outbox, and its atomicity.
use ping.Prelude.{refl, inl, inr, String, Option, none, some, Bool-cases}
use ping.Schedule.{Zones, Instant}
use ping.Db.{Db, Monitor, State, CheckinKind, success, start, fail, unknown, EventType, text, empty}
use ping.Db.Result.{unknown_checkin_kind}
use ping.Store.{Conn}
use ping.Store.Tx.{
  IsAtomic, Faithful, with_tx-IsAtomic, >>=-Faithful, exec-Faithful, pure-Faithful,
  fail_with-Faithful, missing-Faithful, if-Faithful, of_result-Faithful, with_tx-keeps,
}
use ping.Store.Timeline.{transition-Faithful}
use ping.Store.Steps.{weaken}
use ping.Store.Promise.{moved-IsOutbox, IsOutbox, paged-IsOutbox}
use ping.Store.Checkin.{RecordCheckinParams, record_checkin, apply_kind, is_down}
use ping.Store.Checkin.Laws.{record_checkin-Ensures, after_ping, logged}

-- The state that a ping asks for.
abbrev pub target : CheckinKind → State → State
target success s = State.up
target fail s = State.down
target _ s = s

-- The changes of state that page somebody.
abbrev pub transition_of : State → State → Option State
transition_of State.down State.up = some State.up
transition_of State.down _ = none
transition_of _ State.down = some State.down
transition_of _ _ = none

promise_kept :
    (kind : CheckinKind) (m : Monitor) (now : Instant) (nd : Option Instant) (d : Db)
    → IsOutbox d
    → IsOutbox (after_ping kind m now nd d)
unfolding after_ping
promise_kept start m now nd d o = o
promise_kept (unknown w) m now nd d o = o
promise_kept success m now nd d o = elim (Bool-cases (is_down m.state)) [
  | inl e ↦
      rw e (
        paged-IsOutbox m.id EventType.up (text "Monitor recovered") empty _ (moved-IsOutbox o) refl)
  | inr e ↦ rw e (moved-IsOutbox o)
]
promise_kept fail m now nd d o = elim (Bool-cases (is_down m.state)) [
  | inl e ↦ rw e (moved-IsOutbox o)
  | inr e ↦ rw e (
      paged-IsOutbox m.id EventType.down (text "Monitor reported failure") empty _
        (moved-IsOutbox o) refl)
]

logged_kept :
    (p : RecordCheckinParams) (ip : Option String) (m : Monitor) (d : Db)
    → IsOutbox d
    → IsOutbox (logged p ip m d)
unfolding logged
logged_kept p ip m d o = record { paired = o.paired; fresh = o.fresh; ordered = o.ordered }

apply_kind-Faithful :
    (z : Zones) (kind : CheckinKind) (m : Monitor) (now : Instant)
    → Faithful (apply_kind z kind m now)
unfolding apply_kind
apply_kind-Faithful z start m now = pure-Faithful _
apply_kind-Faithful z success m now = >>=-Faithful (of_result-Faithful _) (λ nd.
    >>=-Faithful (exec-Faithful _) (λ _.
      if-Faithful (is_down m.state)
        (>>=-Faithful (transition-Faithful _ _ _) (λ _. pure-Faithful _)) (pure-Faithful _)))
apply_kind-Faithful z fail m now = >>=-Faithful (exec-Faithful _) (λ _.
    if-Faithful (is_down m.state) (pure-Faithful _)
      (>>=-Faithful (transition-Faithful _ _ _) (λ _. pure-Faithful _)))
apply_kind-Faithful z (unknown w) m now = fail_with-Faithful unknown_checkin_kind

module _ (z : Zones) (parse_addr : String → Option String) (p : RecordCheckinParams) where
  -- Whatever the ping and whatever statements fail, the outbox keeps its promise: each event that
  -- owes a notification has one alert.
  pub record_checkin-IsOutbox :
      (c : Conn) → IsOutbox c.db → IsOutbox (record_checkin z parse_addr p c).1.db
  unfolding record_checkin
  record_checkin-IsOutbox = with_tx-keeps IsOutbox _ (
      weaken (record_checkin-Ensures z parse_addr p) (λ d r d' (m, nd, _, _, _, f) o.
        rw f (promise_kept p.kind m p.now nd _ (logged_kept p _ m d o))))

  -- One transaction: a failure of the driver at any statement leaves the tables as they were, and
  -- otherwise the result and the tables are those of a run without faults.
  pub record_checkin-IsAtomic : IsAtomic (record_checkin z parse_addr p)
  unfolding record_checkin
  record_checkin-IsAtomic = with_tx-IsAtomic (
      >>=-Faithful (missing-Faithful (exec-Faithful _))
        (λ m. >>=-Faithful (exec-Faithful _) (λ row. apply_kind-Faithful z p.kind m p.now)))
