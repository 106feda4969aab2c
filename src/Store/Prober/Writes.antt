-- ===== src/Store/Prober/Writes.antt =====
-- What a recorded probe adds to the tables, and what it leaves in each row.
use mathlib.Core.Option.{some-injective}
use ping.Prelude.{
  ℕ, ◌+◌, ◌≡◌, refl, ap, ◌∙◌, sym, Bool, true, false, Option, none, some, ◌==◌, is_some, find,
  map_option, length, length-snoc, arith, if◌then◌else◌,
}
use ping.Schedule.{Instant}
use ping.Db.{
  Db, Monitor, State, EventType, text, empty, has_id, tls_certificate_expires, tls_expires_at,
}
use ping.Db.Keys.{find-update}
use ping.Db.Probes.{update_monitor_on_probe, set_tls_warned_expiry}
use ping.Store.Timeline.{noted_event, owed_alert}
use ping.Store.Checkin.Outcome.{transition_of}
use ping.Store.Prober.{
  ProbeOutcome, next_probe_state, probe_failure_message, state_or_up, owes_warning,
}
use ping.Store.Prober.Laws.{probed, stepped, crossed, crossing, page_warning, warned, after_probe}

pub crossing_lem :
    (o : ProbeOutcome) (p : Option State) (s : State)
    → o.prior_state ≡ p
    → crossing o s ≡ transition_of (state_or_up p) s
unfolding crossing
crossing_lem o none State.new e = ground arith
crossing_lem o none State.up e = ground arith
crossing_lem o none State.late e = ground arith
crossing_lem o none State.down e = ground arith
crossing_lem o (some State.new) State.new e = ground arith
crossing_lem o (some State.new) State.up e = ground arith
crossing_lem o (some State.new) State.late e = ground arith
crossing_lem o (some State.new) State.down e = ground arith
crossing_lem o (some State.up) State.new e = ground arith
crossing_lem o (some State.up) State.up e = ground arith
crossing_lem o (some State.up) State.late e = ground arith
crossing_lem o (some State.up) State.down e = ground arith
crossing_lem o (some State.late) State.new e = ground arith
crossing_lem o (some State.late) State.up e = ground arith
crossing_lem o (some State.late) State.late e = ground arith
crossing_lem o (some State.late) State.down e = ground arith
crossing_lem o (some State.down) State.new e = ground arith
crossing_lem o (some State.down) State.up e = ground arith
crossing_lem o (some State.down) State.late e = ground arith
crossing_lem o (some State.down) State.down e = ground arith

abbrev pub count : Bool → ℕ
count b = if b then 1 else 0

-- Whether the probe of a certificate owes a warning; without one there is none.
abbrev pub warns : Instant → ProbeOutcome → Option Instant → Bool
warns wall o none = false
warns wall o (some t) = owes_warning wall o t

pub crossed_grown :
    (o : ProbeOutcome) (s : State) (d : Db)
    → (length (crossed o s d).events ≡ length d.events + count (is_some (crossing o s)))
      × (length (crossed o s d).alerts ≡ length d.alerts + count (is_some (crossing o s)))
      × ((crossed o s d).monitors ≡ d.monitors)
unfolding crossed crossing
crossed_grown o State.new d = ground arith
crossed_grown o State.late d = ground arith
crossed_grown o State.up d = ground (
  arith,
  length-snoc d.alerts (owed_alert o.monitor_id d),
  length-snoc d.events (noted_event o.monitor_id EventType.up (text "Monitor recovered") empty d),
)
crossed_grown o State.down d = ground (
  arith,
  length-snoc d.alerts (owed_alert o.monitor_id d),
  length-snoc d.events
      (noted_event o.monitor_id EventType.down (text (probe_failure_message o.error)) empty d),
)

-- The row after the warning.
abbrev marked : Bool → Instant → Monitor → Monitor
marked b t m = if b then record m { tls_warned_expires_at = some t } else m

abbrev pub warned_row : Instant → ProbeOutcome → Option Instant → Monitor → Monitor
warned_row wall o none m = m
warned_row wall o (some t) m = marked (owes_warning wall o t) t m

pub warned_grown :
    (wall : Instant) (o : ProbeOutcome) (c : Option Instant) (d : Db)
    → (length (warned wall o c d).events ≡ length d.events + count (warns wall o c))
      × (length (warned wall o c d).alerts ≡ length d.alerts + count (warns wall o c))
unfolding warned set_tls_warned_expiry
warned_grown wall o none d = ground arith
warned_grown wall o (some t) d = ground (
  arith,
  length-snoc d.alerts (owed_alert o.monitor_id d),
  length-snoc d.events (
      noted_event o.monitor_id EventType.tls_expiry (tls_certificate_expires t) (tls_expires_at t)
        d),
)

-- The row of the probed monitor after its probe.
unfoldable pub probed_row : Instant → ProbeOutcome → Instant → Monitor → Monitor
probed_row wall o now m = warned_row wall o o.tls_expiry (record m {
  state = (next_probe_state o).0;
  fail_streak = (next_probe_state o).1;
  next_probe_at = some o.next_probe_at;
  updated_at = now;
})

-- The row as the switch of the state leaves it.
abbrev switched_row : ProbeOutcome → Instant → Monitor → Monitor
switched_row o now m = record m {
  state = (next_probe_state o).0;
  fail_streak = (next_probe_state o).1;
  next_probe_at = some o.next_probe_at;
  updated_at = now;
}

warned_none :
    (wall : Instant) (o : ProbeOutcome) (x : Option Monitor)
    → map_option (warned_row wall o none) x ≡ x
warned_none wall o none = refl
warned_none wall o (some m) = refl

map_option_same : (t : Instant) (x : Option Monitor) → map_option (marked false t) x ≡ x
map_option_same t none = refl
map_option_same t (some m) = refl

find-marked :
    (i : ℕ) (t : Instant) (b : Bool) (d : Db) (j : ℕ)
    → find
        (has_id j)
        (if b then set_tls_warned_expiry i (some t) (page_warning i t d) else d).monitors
      ≡ (if i == j
          then map_option (marked b t) (find (has_id j) d.monitors)
          else find (has_id j) d.monitors)
unfolding set_tls_warned_expiry
find-marked i t true d j = find-update i j (marked true t) (λ (x : Monitor). refl) d.monitors
find-marked i t false d j = ground (arith, map_option_same t (find (has_id j) d.monitors))

find-warned :
    (wall : Instant) (o : ProbeOutcome) (c : Option Instant) (d : Db) (j : ℕ)
    → find (has_id j) (warned wall o c d).monitors ≡ (
        if o.monitor_id == j
        then map_option (warned_row wall o c) (find (has_id j) d.monitors)
        else find (has_id j) d.monitors)
unfolding warned set_tls_warned_expiry
find-warned wall o none d j = ground (arith, warned_none wall o (find (has_id j) d.monitors))
find-warned wall o (some t) d j = find-marked o.monitor_id t (owes_warning wall o t) d j

find-stepped :
    (o : ProbeOutcome) (d : Db) (j : ℕ)
    → find (has_id j) (stepped o (probed o d)).monitors ≡ (
        if o.monitor_id == j
        then map_option (switched_row o d.now) (find (has_id j) d.monitors)
        else find (has_id j) d.monitors)
unfolding probed update_monitor_on_probe
find-stepped o d j =
    find-update o.monitor_id j (switched_row o d.now) (λ (x : Monitor). refl) d.monitors

both_rows :
    (wall : Instant) (o : ProbeOutcome) (now : Instant) (b : Bool) (x : Option Monitor)
    → (if b
        then map_option
            (warned_row wall o o.tls_expiry)
            (if b then map_option (switched_row o now) x else x)
        else if b
        then map_option (switched_row o now) x
        else x)
      ≡ (if b then map_option (probed_row wall o now) x else x)
unfolding probed_row
both_rows wall o now true none = refl
both_rows wall o now true (some m) = refl
both_rows wall o now false x = refl

pub find-after_probe :
    (wall : Instant) (o : ProbeOutcome) (d : Db) (j : ℕ)
    → find (has_id j) (after_probe wall o d).monitors ≡ (
        if o.monitor_id == j
        then map_option (probed_row wall o d.now) (find (has_id j) d.monitors)
        else find (has_id j) d.monitors)
find-after_probe wall o d j =
    let d₁ = stepped o (probed o d) in
    let (_, _, same) = crossed_grown o (next_probe_state o).0 d₁ in
    find-warned wall o o.tls_expiry (crossed o (next_probe_state o).0 d₁) j
    ∙ rw same (
        rw (find-stepped o d j)
          (both_rows wall o d.now (o.monitor_id == j) (find (has_id j) d.monitors)))

pub warned_column :
    (wall : Instant) (o : ProbeOutcome) (now t : Instant) (x : Option Monitor) (m : Monitor)
    → map_option (probed_row wall o now) x ≡ some m
    → o.tls_expiry ≡ some t
    → owes_warning wall o t ≡ true
    → m.tls_warned_expires_at ≡ some t
unfolding probed_row owes_warning
warned_column wall o now t none m h e w = absurd (ground arith)
warned_column wall o now t (some m₀) m h e w =
    ap (λ (y : Monitor). y.tls_warned_expires_at) (some-injective _ _ (sym h)) ∙ rw e (rw w refl)
