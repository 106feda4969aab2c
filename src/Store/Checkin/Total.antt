-- ===== src/Store/Checkin/Total.antt =====
-- What an ingested ping answers on every branch, when no statement fails for the driver's reason.
use ping.Prelude.{ℕ, ◌≡◌, refl, String, Bool, true, false, Option, none, some, arith, if◌then◌else◌}
use ping.Schedule.{Zones, Instant}
use ping.Db.{
  Checkin, Db, Monitor, CheckinKind, success, start, fail, unknown, EventType, text, empty,
  has_monitor,
}
use ping.Db.Result.{Result, ok, err, not_found, check_violation}
use ping.Db.Monitors.{update_monitor_on_checkin}
use ping.Db.Checkins.{insert_checkin, with_checkin}
use ping.Store.{pure, ◌>>◌, ◌>>=◌, exec}
use ping.Store.Timeline.{paged}
use ping.Store.Answers.{
  Answers, Returns-Answers, exec-Answers, >>=-Answers, >>=-refused, of_result-Answers,
}
use ping.Store.Returns.{
  Returns, pure-Returns, exec-Returns, change-Returns, >>=-Returns, of_result-Returns,
  transition-Returns, has_monitor-set,
}
use ping.Store.Checkin.{
  RecordCheckinParams, RecordCheckinResult, apply_kind, apply_success, apply_fail,
  record_transition, is_down, next_deadline_for,
}
use ping.Store.Checkin.Laws.{after_ping, answer}

page_if-Returns :
    (i : ℕ) (t : EventType) (s : String) (a₁ a₂ : RecordCheckinResult) (b : Bool) (d : Db)
    → has_monitor i d ≡ true
    → Returns
        (if b then record_transition i t (text s) >> pure a₁ else pure a₂)
        d
        (if b then a₁ else a₂)
        (if b then paged i t (text s) empty d else d)
page_if-Returns i t s a₁ a₂ true d h =
    >>=-Returns _ _ d tt _ a₁ _ (transition-Returns i t (text s) d h) (pure-Returns a₁ _)
page_if-Returns i t s a₁ a₂ false d h = pure-Returns a₂ d

page_unless-Returns :
    (i : ℕ) (t : EventType) (s : String) (a₁ a₂ : RecordCheckinResult) (b : Bool) (d : Db)
    → has_monitor i d ≡ true
    → Returns
        (if b then pure a₂ else record_transition i t (text s) >> pure a₁)
        d
        (if b then a₂ else a₁)
        (if b then d else paged i t (text s) empty d)
page_unless-Returns i t s a₁ a₂ true d h = pure-Returns a₂ d
page_unless-Returns i t s a₁ a₂ false d h =
    >>=-Returns _ _ d tt _ a₁ _ (transition-Returns i t (text s) d h) (pure-Returns a₁ _)

abbrev is_known : CheckinKind → Bool
is_known (unknown _) = false
is_known _ = true

module _ (z : Zones) (m : Monitor) (now : Instant) (d : Db) (here : has_monitor m.id d ≡ true) where
  success-Returns :
      (nd : Option Instant)
      → next_deadline_for z m now ≡ ok nd
      → Returns (apply_success z m now) d (answer success m nd) (after_ping success m now nd d)
  unfolding apply_success answer after_ping update_monitor_on_checkin
  success-Returns nd h = >>=-Returns _ _ d nd d _ _ (of_result-Returns _ d nd h) (
      >>=-Returns _ _ d tt _ _ _ (change-Returns _ d) (
        page_if-Returns m.id EventType.up "Monitor recovered" _ _ (is_down m.state) _
          (has_monitor-set m.id m.id _ d (λ x. refl) here)))

  fail-Returns : Returns (apply_fail m now) d (answer fail m none) (after_ping fail m now none d)
  unfolding apply_fail answer after_ping update_monitor_on_checkin
  fail-Returns = >>=-Returns _ _ d tt _ _ _ (change-Returns _ d) (
      page_unless-Returns m.id EventType.down "Monitor reported failure" _ _ (is_down m.state) _
        (has_monitor-set m.id m.id _ d (λ x. refl) here))

-- The result that a ping of each kind is owed, where `r` is its new deadline or why it has none.
unfoldable pub answered :
    CheckinKind → Monitor → Result (Option Instant) → Result RecordCheckinResult
answered success m (ok nd) = ok (answer success m nd)
answered success m (err e) = err e
answered fail m r = ok (answer fail m none)
answered start m r = ok (answer start m none)
answered (unknown _) m r = err check_violation

-- The result that a ping is owed, where `o` is the monitor of its slug.
abbrev pub owed : Zones → RecordCheckinParams → Option Monitor → Result RecordCheckinResult
owed z p none = err not_found
owed z p (some m) = answered p.kind m (next_deadline_for z m p.now)

module _ (z : Zones) (m : Monitor) (now : Instant) (d : Db) (here : has_monitor m.id d ≡ true) where
  deadline-Answers :
      (r : Result (Option Instant))
      → next_deadline_for z m now ≡ r
      → (d₁ : Db) → has_monitor m.id d₁ ≡ true
      → Answers (apply_success z m now) d₁ (answered success m r)
  unfolding answered apply_success
  deadline-Answers (ok nd) e d₁ h = Returns-Answers _ d₁ _ _ (success-Returns z m now d₁ h nd e)
  deadline-Answers (err x) e d₁ h =
      >>=-refused _ _ d₁ x (of_result-Answers (next_deadline_for z m now) d₁ x e)

  abbrev new_row : CheckinKind → Option String → Option String → Option String → Checkin
  new_row kind ip ua body = record {
    id = d.next_checkin_id;
    monitor_id = m.id;
    kind = kind;
    source_ip = ip;
    user_agent = ua;
    body = body;
    created_at = d.now;
  }

  -- The row is written for a known kind, and the monitor is there still.
  insert-Returns :
      (kind : CheckinKind) (ip ua body : Option String)
      → is_known kind ≡ true
      → (row : Checkin) × (d₁ : Db) × Returns (exec (insert_checkin m.id kind ip ua body)) d row d₁
        × (has_monitor m.id d₁ ≡ true)
  unfolding insert_checkin
  insert-Returns success ip ua body k =
      let row = new_row success ip ua body in
      (row, with_checkin row d, exec-Returns _ d row (with_checkin row d) (rw here refl), here)
  insert-Returns fail ip ua body k =
      let row = new_row fail ip ua body in
      (row, with_checkin row d, exec-Returns _ d row (with_checkin row d) (rw here refl), here)
  insert-Returns start ip ua body k =
      let row = new_row start ip ua body in
      (row, with_checkin row d, exec-Returns _ d row (with_checkin row d) (rw here refl), here)
  insert-Returns (unknown w) ip ua body k = absurd (ground arith)

  pub kind-Answers :
      (kind : CheckinKind) (ip ua body : Option String)
      → Answers
          (exec (insert_checkin m.id kind ip ua body) >>= λ row. apply_kind z kind m now)
          d
          (answered kind m (next_deadline_for z m now))
  unfolding apply_kind answered insert_checkin answer
  kind-Answers success ip ua body =
      let (row, d₁, ins, there) = insert-Returns success ip ua body refl in
      >>=-Answers _ _ d row d₁ _ ins (deadline-Answers (next_deadline_for z m now) refl d₁ there)
  kind-Answers fail ip ua body =
      let (row, d₁, ins, there) = insert-Returns fail ip ua body refl in
      >>=-Answers _ _ d row d₁ _ ins (Returns-Answers _ d₁ _ _ (fail-Returns z m now d₁ there))
  kind-Answers start ip ua body =
      let (row, d₁, ins, there) = insert-Returns start ip ua body refl in
      >>=-Answers _ _ d row d₁ _ ins (Returns-Answers _ d₁ _ _ (pure-Returns _ d₁))
  kind-Answers (unknown w) ip ua body = >>=-refused _ _ d check_violation (exec-Answers _ d _ refl)
