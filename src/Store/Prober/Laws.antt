-- ===== src/Store/Prober/Laws.antt =====
-- What a recorded probe does to its monitor, to the timeline and to the outbox.
use ping.Prelude.{
  ℕ, ◌+◌, ◌≡◌, ap, ◌∙◌, Bool, Option, none, some, [], ◌∷◌, ◌++◌, arith, if◌then◌else◌,
}
use ping.Schedule.{Instant}
use ping.Db.{
  Db, State, Event, Alert, ProbeResult, EventType, text, empty, tls_certificate_expires,
  tls_expires_at,
}
use ping.Db.Result.{ok}
use ping.Db.Probes.{insert_probe_result, update_monitor_on_probe, set_tls_warned_expiry}
use ping.Db.Outbox.{insert_alert, default_channel}
use ping.Store.{pure}
use ping.Store.Steps.{
  Ensures, weaken, pure-Ensures, exec-Ensures, change-Ensures, with_tx-Ensures, >>=-Ensures,
}
use ping.Store.Timeline.{
  noted_event, noted, paged, insert_alert-ok, event_meta-Ensures, page_if-Ensures,
  page_unless-Ensures,
}
use ping.Store.Checkin.{text_or_null}
use ping.Store.Prober.{
  ProbeOutcome, RecordProbeResultResult, next_probe_state, probe_failure_message, was_down,
  owes_warning, warn, maybe_warn_tls_expiry, probe_transition, record_probe_result,
}

pub probe_row : ProbeOutcome → Db → ProbeResult
probe_row o db = record {
  id = db.next_probe_id;
  monitor_id = o.monitor_id;
  ok = o.succeeded;
  http_status = o.http_status;
  latency_ms = o.latency_ms;
  error = text_or_null o.error;
  tls_expires_at = o.tls_expiry;
  created_at = db.now;
}

-- The tables with the result of the probe.
unfoldable pub probed : ProbeOutcome → Db → Db
unfolding probe_row
probed o db = record db {
  probe_results = db.probe_results ++ probe_row o db ∷ [];
  next_probe_id = db.next_probe_id + 1;
}

-- The tables with the new state and streak of the monitor.
abbrev pub stepped : ProbeOutcome → Db → Db
stepped o db =
    let s = next_probe_state o in
    update_monitor_on_probe o.monitor_id s.0 s.1 (some o.next_probe_at) db

-- The tables after the change of state, and what is answered for it.
unfoldable pub crossed : ProbeOutcome → State → Db → Db
crossed o State.down db =
    if was_down o.prior_state
    then db
    else paged o.monitor_id EventType.down (text (probe_failure_message o.error)) empty db
crossed o State.up db =
    if was_down o.prior_state
    then paged o.monitor_id EventType.up (text "Monitor recovered") empty db
    else db
crossed o _ db = db

unfoldable pub crossing : ProbeOutcome → State → Option State
crossing o State.down = if was_down o.prior_state then none else some State.down
crossing o State.up = if was_down o.prior_state then some State.up else none
crossing o _ = none

abbrev pub page_warning : ℕ → Instant → Db → Db
page_warning i t db = paged i EventType.tls_expiry (tls_certificate_expires t) (tls_expires_at t) db

-- The tables after the warning about the certificate, if one is owed.
unfoldable pub warned : Instant → ProbeOutcome → Option Instant → Db → Db
warned wall o none db = db
warned wall o (some t) db =
    if owes_warning wall o t
    then set_tls_warned_expiry o.monitor_id (some t) (page_warning o.monitor_id t db)
    else db

insert_probe_result-ok :
    (o : ProbeOutcome) (d d' : Db) (row : ProbeResult)
    → insert_probe_result o.monitor_id o.succeeded o.http_status o.latency_ms
        (text_or_null o.error)
        o.tls_expiry
        d
      ≡ ok (row, d')
    → d' ≡ probed o d
unfolding insert_probe_result probed
insert_probe_result-ok o d d' row h = ground arith

transition-Ensures :
    (o : ProbeOutcome) (s : State)
    → Ensures (probe_transition o s) (λ d r d'. (r ≡ crossing o s) × (d' ≡ crossed o s d))
unfolding probe_transition crossing crossed
transition-Ensures o State.new = pure-Ensures none
transition-Ensures o State.late = pure-Ensures none
transition-Ensures o State.down =
    page_unless-Ensures o.monitor_id EventType.down (text (probe_failure_message o.error))
      (some State.down) none (was_down o.prior_state)
transition-Ensures o State.up =
    page_if-Ensures o.monitor_id EventType.up (text "Monitor recovered") (some State.up) none
      (was_down o.prior_state)

warned_post :
    (i : ℕ) (t : Instant) (d : Db) (u : Unit {0}) (d' : Db)
    → (e : Event) × (d₁ : Db) × ((e
          ≡ noted_event i EventType.tls_expiry (tls_certificate_expires t) (tls_expires_at t) d)
        × (d₁ ≡ noted i EventType.tls_expiry (tls_certificate_expires t) (tls_expires_at t) d))
      × ((a : Alert) × (d₂ : Db) × (insert_alert i e.id default_channel d₁ ≡ ok (a, d₂))
          × (d' ≡ set_tls_warned_expiry i (some t) d₂))
    → d' ≡ set_tls_warned_expiry i (some t) (page_warning i t d)
warned_post i t d u d' (e, d₁, (p, q), (a, d₂, r, s)) =
    s ∙ ap (set_tls_warned_expiry i (some t)) (ground (arith, insert_alert-ok i e.id d₁ d₂ a r))

warn-Ensures :
    (i : ℕ) (t : Instant)
    → Ensures (warn i t) (λ d u d'. d' ≡ set_tls_warned_expiry i (some t) (page_warning i t d))
unfolding warn
warn-Ensures i t =
    weaken
      (>>=-Ensures
        (event_meta-Ensures i EventType.tls_expiry (tls_certificate_expires t) (tls_expires_at t))
        (λ e.
          >>=-Ensures (exec-Ensures (insert_alert i e.id default_channel))
            (λ a. change-Ensures (set_tls_warned_expiry i (some t)))))
      (warned_post i t)

warn_if-Ensures :
    (i : ℕ) (t : Instant) (b : Bool)
    → Ensures
        (if b then warn i t else pure tt)
        (λ d u d'. d' ≡ (if b then set_tls_warned_expiry i (some t) (page_warning i t d) else d))
warn_if-Ensures i t Bool.true = warn-Ensures i t
warn_if-Ensures i t Bool.false = weaken (pure-Ensures tt) (λ d u d' (a, b). b)

warning-Ensures :
    (wall : Instant) (o : ProbeOutcome) (c : Option Instant)
    → Ensures (maybe_warn_tls_expiry wall o c) (λ d u d'. d' ≡ warned wall o c d)
unfolding maybe_warn_tls_expiry warned
warning-Ensures wall o none = weaken (pure-Ensures tt) (λ d u d' (a, b). b)
warning-Ensures wall o (some t) = warn_if-Ensures o.monitor_id t (owes_warning wall o t)

-- What a recorded probe leaves behind.
abbrev pub after_probe : Instant → ProbeOutcome → Db → Db
after_probe wall o d =
    warned wall o o.tls_expiry (crossed o (next_probe_state o).0 (stepped o (probed o d)))

abbrev pub probe_answer : ProbeOutcome → RecordProbeResultResult
probe_answer o = record {
  state = (next_probe_state o).0;
  transition = crossing o (next_probe_state o).0;
}

module _ (wall : Instant) (o : ProbeOutcome) where
  pub record_probe_result-Ensures :
      Ensures
        (record_probe_result wall o)
        (λ d r d'. (r ≡ probe_answer o) × (d' ≡ after_probe wall o d))
  unfolding record_probe_result
  record_probe_result-Ensures =
      weaken
        (with_tx-Ensures (
          >>=-Ensures
            (exec-Ensures (
              insert_probe_result o.monitor_id o.succeeded o.http_status o.latency_ms
                (text_or_null o.error) o.tls_expiry))
            (λ row.
              >>=-Ensures
                (change-Ensures (
                  update_monitor_on_probe o.monitor_id (next_probe_state o).0 (next_probe_state o).1
                    (some o.next_probe_at)))
                (λ u. >>=-Ensures (transition-Ensures o (next_probe_state o).0) (λ transition.
                  >>=-Ensures (warning-Ensures wall o o.tls_expiry) (λ v.
                    pure-Ensures
                      (record { state = (next_probe_state o).0; transition = transition })))))))
        (λ d r d' (row, d₁, p, (u, d₂, q, (t, d₃, (f, g), (v, d₄, w, (a, b))))). (
          a ∙ ap (λ x. record { state = (next_probe_state o).0; transition = x }) f,
          b
              ∙ w
              ∙ ap (warned wall o o.tls_expiry) (
                  g
                  ∙ ap (crossed o (next_probe_state o).0)
                      (q ∙ ap (stepped o) (insert_probe_result-ok o d d₁ row p))),
        ))
