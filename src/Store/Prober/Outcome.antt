-- ===== src/Store/Prober/Outcome.antt =====
-- The properties of a recorded probe: its answer, what it writes, and that it is one transaction.
use ping.Prelude.{
  ℕ, ◌+◌, ◌≡◌, refl, ap, ◌∙◌, sym, true, false, Option, none, some, inl, inr, Bool-cases, ◌==◌,
  ==_iff, is_some, find, map_option, length, arith, if◌then◌else◌,
}
use ping.Schedule.{Instant}
use ping.Db.{
  Db, Monitor, State, EventType, text, empty, has_id, tls_certificate_expires, tls_expires_at,
}
use ping.Db.Result.{ok}
use ping.Db.Probes.{update_monitor_on_probe, set_tls_warned_expiry}
use ping.Store.{Conn}
use ping.Store.Steps.{weaken}
use ping.Store.Tx.{
  IsAtomic, Faithful, with_tx-IsAtomic, >>=-Faithful, exec-Faithful, pure-Faithful, if-Faithful,
  with_tx-keeps,
}
use ping.Store.Timeline.{transition-Faithful, event_meta-Faithful}
use ping.Store.Promise.{IsOutbox, paged-IsOutbox, moved-IsOutbox}
use ping.Store.Checkin.Outcome.{transition_of}
use ping.Store.Prober.{
  ProbeOutcome, RecordProbeResultResult, next_probe_state, probe_failure_message, was_down,
  state_or_up, owes_warning, warn, truncate_second, maybe_warn_tls_expiry, probe_transition,
  record_probe_result,
}
use ping.Store.Prober.Laws.{probed, stepped, crossed, warned, record_probe_result-Ensures}
use ping.Store.Prober.Writes.{
  crossing_lem, count, crossed_grown, warned_grown, warned_column, find-after_probe, warns,
  probed_row,
}

crossed_promise : (o : ProbeOutcome) (s : State) (d : Db) → IsOutbox d → IsOutbox (crossed o s d)
unfolding crossed
crossed_promise o State.new d h = h
crossed_promise o State.late d h = h
crossed_promise o State.up d h = elim (Bool-cases (was_down o.prior_state)) [
  | inl e ↦
      rw e (paged-IsOutbox o.monitor_id EventType.up (text "Monitor recovered") empty d h refl)
  | inr e ↦ rw e h
]
crossed_promise o State.down d h = elim (Bool-cases (was_down o.prior_state)) [
  | inl e ↦ rw e h
  | inr e ↦ rw e (
      paged-IsOutbox o.monitor_id EventType.down (text (probe_failure_message o.error)) empty d h
        refl)
]

warned_promise :
    (wall : Instant) (o : ProbeOutcome) (c : Option Instant) (d : Db)
    → IsOutbox d
    → IsOutbox (warned wall o c d)
unfolding warned set_tls_warned_expiry
warned_promise wall o none d h = h
warned_promise wall o (some t) d h = elim (Bool-cases (owes_warning wall o t)) [
  | inl e ↦ rw e (
      moved-IsOutbox (
        paged-IsOutbox o.monitor_id EventType.tls_expiry (tls_certificate_expires t)
          (tls_expires_at t) d h refl))
  | inr e ↦ rw e h
]

probed_promise : (o : ProbeOutcome) (d : Db) → IsOutbox d → IsOutbox (stepped o (probed o d))
unfolding probed update_monitor_on_probe
probed_promise o d h = record { paired = h.paired; fresh = h.fresh; ordered = h.ordered }

transition-Faithful' : (o : ProbeOutcome) (s : State) → Faithful (probe_transition o s)
unfolding probe_transition
transition-Faithful' o State.new = pure-Faithful none
transition-Faithful' o State.late = pure-Faithful none
transition-Faithful' o State.down =
    if-Faithful (was_down o.prior_state) (pure-Faithful _)
      (>>=-Faithful (transition-Faithful _ _ _) (λ _. pure-Faithful _))
transition-Faithful' o State.up =
    if-Faithful (was_down o.prior_state)
      (>>=-Faithful (transition-Faithful _ _ _) (λ _. pure-Faithful _)) (pure-Faithful _)

warning-Faithful :
    (wall : Instant) (o : ProbeOutcome) (c : Option Instant)
    → Faithful (maybe_warn_tls_expiry wall o c)
unfolding maybe_warn_tls_expiry warn
warning-Faithful wall o none = pure-Faithful tt
warning-Faithful wall o (some t) =
    if-Faithful (owes_warning wall o t)
      (>>=-Faithful (event_meta-Faithful _ _ _ _)
        (λ e. >>=-Faithful (exec-Faithful _) (λ a. exec-Faithful _)))
      (pure-Faithful tt)

module _ (wall : Instant) (o : ProbeOutcome) where
  -- A recorded probe answers the new state, and names a transition exactly if the state changed
  -- from down to up or from another state to down, where the prior state counts as up if it is
  -- missing. It writes one event and one alert for the transition, and one of each for the warning
  -- about the certificate if one is owed, and no others.
  pub record_probe_result_writes :
      (c c' : Conn) (r : RecordProbeResultResult)
      → record_probe_result wall o c ≡ (ok r, c')
      → (r.transition ≡ transition_of (state_or_up o.prior_state) r.state)
        × (length c'.db.events
            ≡ length c.db.events + count (is_some r.transition) + count (warns wall o o.tls_expiry))
        × (length c'.db.alerts
            ≡ length c.db.alerts + count (is_some r.transition) + count (warns wall o o.tls_expiry))
  unfolding probed update_monitor_on_probe
  record_probe_result_writes c c' r h =
      let (p, q) = (record_probe_result-Ensures wall o).holds c c' r h in
      let s = (next_probe_state o).0 in
      let d₁ = stepped o (probed o c.db) in
      let (a, b, _) = crossed_grown o s d₁ in
      let (e, f) = warned_grown wall o o.tls_expiry (crossed o s d₁) in
      rw (p, q) (crossing_lem o o.prior_state s refl, e ∙ rw a refl, f ∙ rw b refl)

  -- A recorded probe leaves in the row of its monitor the new state and streak, the next time and,
  -- if it warned about the certificate, its expiry; no other row changes.
  pub record_probe_result_row :
      (c c' : Conn) (r : RecordProbeResultResult)
      → record_probe_result wall o c ≡ (ok r, c')
      → (j : ℕ)
      → find (has_id j) c'.db.monitors ≡ (
          if o.monitor_id == j
          then map_option (probed_row wall o c.db.now) (find (has_id j) c.db.monitors)
          else find (has_id j) c.db.monitors)
  record_probe_result_row c c' r h j =
      let (p, q) = (record_probe_result-Ensures wall o).holds c c' r h in
      ap (λ (x : Db). find (has_id j) x.monitors) q ∙ find-after_probe wall o c.db j

  -- Whatever statements fail, the outbox keeps its promise.
  pub record_probe_result-IsOutbox :
      (c : Conn) → IsOutbox c.db → IsOutbox (record_probe_result wall o c).1.db
  unfolding record_probe_result
  record_probe_result-IsOutbox = with_tx-keeps IsOutbox _ (
      weaken (record_probe_result-Ensures wall o) (λ d r d' (p, q) h. rw q (
        warned_promise wall o o.tls_expiry _
          (crossed_promise o (next_probe_state o).0 _ (probed_promise o d h)))))

  -- A failure of the driver at any statement of the recording leaves the tables as they were, and
  -- otherwise the result and the tables are those of a run without faults.
  pub record_probe_result-IsAtomic : IsAtomic (record_probe_result wall o)
  unfolding record_probe_result
  record_probe_result-IsAtomic = with_tx-IsAtomic (
      >>=-Faithful (exec-Faithful _) (λ row. >>=-Faithful (exec-Faithful _) (λ u.
        >>=-Faithful (transition-Faithful' o (next_probe_state o).0)
          (λ t. >>=-Faithful (warning-Faithful wall o o.tls_expiry) (λ v. pure-Faithful _)))))

  -- After a probe that is recorded with a warning about its certificate, a probe that has the
  -- column of the monitor's row as what was warned of and meets a certificate that expires in the
  -- same second owes no warning.
  pub tls_warned_once :
      (c c' : Conn) (r : RecordProbeResultResult) (t : Instant) (m : Monitor)
      → record_probe_result wall o c ≡ (ok r, c')
      → o.tls_expiry ≡ some t
      → owes_warning wall o t ≡ true
      → find (has_id o.monitor_id) c'.db.monitors ≡ some m
      → (wall' : Instant) (o' : ProbeOutcome) (t' : Instant)
      → o'.prior_tls_warned ≡ m.tls_warned_expires_at
      → truncate_second t' ≡ truncate_second t
      → owes_warning wall' o' t' ≡ false
  unfolding owes_warning
  tls_warned_once c c' r t m h e w f wall' o' t' g k =
      let here = (==_iff o.monitor_id o.monitor_id).1 refl in
      let any = record_probe_result_row c c' r h o.monitor_id in
      let row = rw here at any in
      let column =
        warned_column wall o c.db.now t (find (has_id o.monitor_id) c.db.monitors) m (sym row ∙ f) e
          w in
      ground (arith, g ∙ column, k)
