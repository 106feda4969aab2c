-- ===== src/Store/Checkin/Laws.antt =====
-- What an ingested ping does to its monitor, to the timeline and to the outbox.
use ping.Prelude.{
  ℕ, ◌+◌, ◌≡◌, ap, ◌∙◌, String, Option, none, some, [], ◌∷◌, ◌++◌, find, arith, if◌then◌else◌,
}
use ping.Prelude.Int.{ℤ, pos, suc_int32}
use ping.Schedule.{Zones, Instant}
use ping.Db.{
  Db, Monitor, State, CheckinKind, success, start, fail, unknown, EventType, text, empty, Checkin,
}
use ping.Db.Result.{ok}
use ping.Db.Monitors.{
  has_slug, get_monitor_by_slug_for_update, update_monitor_on_checkin, on_checkin, set_monitor,
}
use ping.Db.Checkins.{insert_checkin}
use ping.Store.Steps.{
  Ensures, weaken, pure-Ensures, exec-Ensures, change-Ensures, of_result-Ensures, missing-Ensures,
  with_tx-Ensures, >>=-Ensures,
}
use ping.Store.Timeline.{paged, page_if-Ensures, page_unless-Ensures}
use ping.Store.Checkin.{
  RecordCheckinParams, RecordCheckinResult, record_checkin, apply_kind, apply_success, apply_fail,
  is_down, next_deadline_for, applied, parse_source_ip, text_or_null,
}

-- The row of the monitor after a ping that moves it to `state`.
abbrev pub moved : Monitor → State → Instant → Option Instant → ℤ → Db → Db
moved m state now next_deadline fail_streak db =
    set_monitor m.id (on_checkin state (some now) next_deadline fail_streak db.now) db

abbrev pub page_up : ℕ → Db → Db
page_up i db = paged i EventType.up (text "Monitor recovered") empty db

abbrev pub page_down : ℕ → Db → Db
page_down i db = paged i EventType.down (text "Monitor reported failure") empty db

-- The tables after a ping of each kind at a monitor, given its new deadline.
unfoldable pub after_ping : CheckinKind → Monitor → Instant → Option Instant → Db → Db
after_ping success m now next_deadline db =
    let db' = moved m State.up now next_deadline (pos 0) db in
    if is_down m.state then page_up m.id db' else db'
after_ping fail m now next_deadline db =
    let db' = moved m State.down now none (suc_int32 m.fail_streak) db in
    if is_down m.state then db' else page_down m.id db'
after_ping _ m now next_deadline db = db

-- What the ping answers.
unfoldable pub answer : CheckinKind → Monitor → Option Instant → RecordCheckinResult
answer success m next_deadline =
    if is_down m.state
    then applied m.id State.up (some State.up) next_deadline
    else applied m.id State.up none next_deadline
answer fail m next_deadline =
    if is_down m.state
    then applied m.id State.down none none
    else applied m.id State.down (some State.down) none
answer _ m next_deadline = applied m.id m.state none none

module _ (z : Zones) (m : Monitor) (now : Instant) where
  abbrev pub IsDeadline : CheckinKind → Option Instant → Type 0
  IsDeadline success nd = next_deadline_for z m now ≡ ok nd
  IsDeadline _ nd = Unit

  -- What a ping of this kind leaves behind.
  abbrev pub Applied : CheckinKind → Db → RecordCheckinResult → Db → Type 0
  Applied kind d r d' =
      (nd : Option Instant) × IsDeadline kind nd
      × (r ≡ answer kind m nd)
      × (d' ≡ after_ping kind m now nd d)

  success-Ensures : Ensures (apply_success z m now) (Applied success)
  unfolding apply_success after_ping answer update_monitor_on_checkin
  success-Ensures =
      weaken
        (>>=-Ensures (of_result-Ensures (next_deadline_for z m now)) (λ nd.
          >>=-Ensures
            (change-Ensures (update_monitor_on_checkin m.id State.up (some now) nd (pos 0)))
            (λ _.
              page_if-Ensures m.id EventType.up (text "Monitor recovered")
                (applied m.id State.up (some State.up) nd) (applied m.id State.up none nd)
                (is_down m.state))))
        (λ d r d' (nd, d₁, (p, q), (u, d₂, e, (a, b))). (nd, p, a, rw (b, e, q)))

  fail-Ensures : Ensures (apply_fail m now) (Applied fail)
  unfolding apply_fail after_ping answer update_monitor_on_checkin
  fail-Ensures =
      weaken
        (>>=-Ensures
          (change-Ensures
            (update_monitor_on_checkin m.id State.down (some now) none (suc_int32 m.fail_streak)))
          (λ _.
            page_unless-Ensures m.id EventType.down (text "Monitor reported failure")
              (applied m.id State.down (some State.down) none) (applied m.id State.down none none)
              (is_down m.state)))
        (λ d r d' (u, d₁, e, (a, b)). (none, tt, a, rw (b, e)))

  kind-Ensures : (kind : CheckinKind) → Ensures (apply_kind z kind m now) (Applied kind)
  unfolding apply_kind answer after_ping
  kind-Ensures start =
      weaken (pure-Ensures (applied m.id m.state none none)) (λ d r d' (a, b). (none, tt, a, b))
  kind-Ensures success = success-Ensures
  kind-Ensures fail = fail-Ensures
  kind-Ensures (unknown w) = record { holds = λ c c' a e. absurd (ground arith) }

pub checkin_row : RecordCheckinParams → Option String → Monitor → Db → Checkin
checkin_row p ip m db = record {
  id = db.next_checkin_id;
  monitor_id = m.id;
  kind = p.kind;
  source_ip = ip;
  user_agent = text_or_null p.user_agent;
  body = text_or_null p.body;
  created_at = db.now;
}

-- The tables with the check-in that the ping leaves.
unfoldable pub logged : RecordCheckinParams → Option String → Monitor → Db → Db
unfolding checkin_row
logged p ip m db = record db {
  checkins = db.checkins ++ checkin_row p ip m db ∷ [];
  next_checkin_id = db.next_checkin_id + 1;
}

insert_checkin-ok :
    (p : RecordCheckinParams) (ip : Option String) (m : Monitor) (d d' : Db) (row : Checkin)
    → insert_checkin m.id p.kind ip (text_or_null p.user_agent) (text_or_null p.body) d
      ≡ ok (row, d')
    → d' ≡ logged p ip m d
unfolding insert_checkin logged
insert_checkin-ok p ip m d d' row h = ground arith

slug_row :
    (s : String) (d d' : Db) (m : Monitor)
    → get_monitor_by_slug_for_update s d ≡ ok (m, d')
    → (find (has_slug s) d.monitors ≡ some m) × (d' ≡ d)
unfolding get_monitor_by_slug_for_update
slug_row s d d' m h = ground arith

module _ (z : Zones) (parse_addr : String → Option String) (p : RecordCheckinParams) where
  abbrev pub Recorded : Db → RecordCheckinResult → Db → Type 0
  Recorded d r d' =
      (m : Monitor) × (nd : Option Instant) × (find (has_slug p.slug) d.monitors ≡ some m)
      × IsDeadline z m p.now p.kind nd
      × (r ≡ answer p.kind m nd)
      × (d' ≡ after_ping p.kind m p.now nd (logged p (parse_source_ip parse_addr p.source_ip) m d))

  pub record_checkin-Ensures : Ensures (record_checkin z parse_addr p) Recorded
  unfolding record_checkin
  record_checkin-Ensures =
      weaken
        (with_tx-Ensures (
          >>=-Ensures (missing-Ensures (exec-Ensures (get_monitor_by_slug_for_update p.slug))) (λ m.
            >>=-Ensures
              (exec-Ensures (
                insert_checkin m.id p.kind (parse_source_ip parse_addr p.source_ip)
                  (text_or_null p.user_agent) (text_or_null p.body)))
              (λ row. kind-Ensures z m p.now p.kind))))
        (λ d r d' (m, d₁, a, (row, d₂, b, (nd, dl, e, f))).
          let (found, same) = slug_row p.slug d d₁ m a in
          let ip = parse_source_ip parse_addr p.source_ip in
          (
            m,
            nd,
            found,
            dl,
            e,
            f
                ∙ ap (after_ping p.kind m p.now nd)
                    (insert_checkin-ok p ip m d₁ d₂ row b ∙ ap (logged p ip m) same),
          ))
