-- ===== src/Store/Events/Laws.antt =====
-- What pausing, muting and resuming do to the caller's monitor and to the timeline.
use ping.Prelude.{
  find-update_where, ℕ, ◌≡◌, refl, ap, sym, ◌∙◌, String, Bool, true, false, Option, none, some,
  find, update_where, map_option, arith,
}
use ping.Schedule.{Instant}
use ping.Db.{Db, Monitor, EventType, text, empty}
use ping.Db.Result.{Result, ok}
use ping.Db.Monitors
use ping.Db.Monitors.{
  is_owned, update_owned, paused_row, muted_row, resumed_row, get_monitor_by_id, is_due,
  is_probe_due,
}
use ping.Store.{Conn}
use ping.Store.Steps.{
  Ensures, weaken, pure-Ensures, exec-Ensures, missing-Ensures, with_tx-Ensures, >>=-Ensures,
}
use ping.Store.Tx.{
  IsAtomic, with_tx-IsAtomic, >>=-Faithful, exec-Faithful, pure-Faithful, missing-Faithful,
  with_tx-keeps,
}
use ping.Store.Timeline.{noted, event-Ensures, event-Faithful}
use ping.Store.Promise.{IsOutbox, noted-IsOutbox, moved-IsOutbox}
use ping.Store.Events.{flag_monitor, pause_monitor, mute_monitor, unmute_monitor}

-- What a flag leaves behind: the caller's own monitor is changed and answered, and one event noted.
abbrev pub Flagged :
    ℕ → ℕ → (Instant → Monitor → Monitor) → EventType → String → Db → Monitor → Db → Type 0
Flagged i user f t msg d r d' =
    (m : Monitor) × (find (is_owned i user) d.monitors ≡ some m)
    × (r ≡ f d.now m)
    × (d'
        ≡ noted r.id t (text msg) empty
            (record d { monitors = update_where (is_owned i user) (f d.now) d.monitors }))

pub owned_value :
    (i user : ℕ) (f : Monitor → Monitor) (d : Db) (o : Option Monitor) (r : Monitor) (d' : Db)
    → find (is_owned i user) d.monitors ≡ o
    → update_owned i user f d ≡ ok (r, d')
    → (m : Monitor) × (o ≡ some m)
      × (r ≡ f m)
      × (d' ≡ record d { monitors = update_where (is_owned i user) f d.monitors })
unfolding update_owned
owned_value i user f d none r d' e h = absurd (ground arith)
owned_value i user f d (some m) r d' e h = (m, refl, ground arith, ground arith)

flag-Ensures :
    (i user : ℕ) (f : Instant → Monitor → Monitor) (t : EventType) (msg : String)
    → Ensures (flag_monitor (λ d. update_owned i user (f d.now) d) t msg) (Flagged i user f t msg)
unfolding flag_monitor
flag-Ensures i user f t msg =
    weaken
      (with_tx-Ensures (
        >>=-Ensures (missing-Ensures (exec-Ensures (λ d. update_owned i user (f d.now) d)))
          (λ row. >>=-Ensures (event-Ensures row.id t (text msg)) (λ e. pure-Ensures row))))
      (λ d r d' (row, d₁, p, (e, d₂, (_, q), (a, b))).
        let (m, found, same, there) =
          owned_value i user (f d.now) d (find (is_owned i user) d.monitors) row d₁ refl p in
        (
          m,
          found,
          a ∙ same,
          b
              ∙ q
              ∙ ap (λ x. noted row.id t (text msg) empty x) there
              ∙ ap (λ x. noted x.id t (text msg) empty _) (sym a),
        ))

flagged-IsOutbox :
    (i user : ℕ) (f : Instant → Monitor → Monitor) (t : EventType) (msg : String)
    → ((d : Db) → IsOutbox d → (j : ℕ) → IsOutbox (noted j t (text msg) empty d))
    → (c : Conn) → IsOutbox c.db
    → IsOutbox (flag_monitor (λ d. update_owned i user (f d.now) d) t msg c).1.db
unfolding flag_monitor
flagged-IsOutbox i user f t msg quiet = with_tx-keeps IsOutbox _ (
    weaken (flag-Ensures i user f t msg)
      (λ d r d' (m, _, _, e) o. rw e (quiet _ (moved-IsOutbox o) r.id)))

pub flag-IsAtomic :
    (update : Db → Result (Monitor × Db)) (t : EventType) (msg : String)
    → IsAtomic (flag_monitor update t msg)
unfolding flag_monitor
flag-IsAtomic update t msg = with_tx-IsAtomic (
    >>=-Faithful (missing-Faithful (exec-Faithful update))
      (λ row. >>=-Faithful (event-Faithful _ _ _) (λ e. pure-Faithful row)))

-- The row that was changed is the one that a look-up by its id and owner finds.
row_there :
    (i user : ℕ) (f : Instant → Monitor → Monitor) (t : EventType) (msg : String) (d d' : Db)
    (r : Monitor)
    → ((now : Instant) (m : Monitor) → is_owned i user (f now m) ≡ is_owned i user m)
    → Flagged i user f t msg d r d'
    → find (is_owned i user) d'.monitors ≡ some r
row_there i user f t msg d d' r keep (m, found, same, e) =
    ap (λ (x : Db). find (is_owned i user) x.monitors) e
    ∙ find-update_where (is_owned i user) (f d.now) (keep d.now) d.monitors
    ∙ ap (map_option (f d.now)) found
    ∙ ap some (sym same)

module _ (i user : ℕ) where
  pub pause-Ensures :
      Ensures (pause_monitor i user) (Flagged i user paused_row EventType.pause "Monitor paused")
  unfolding pause_monitor Monitors.pause_monitor
  pause-Ensures = flag-Ensures i user paused_row EventType.pause "Monitor paused"

  mute-Ensures :
      Ensures (mute_monitor i user) (Flagged i user (muted_row true) EventType.mute "Alerts muted")
  unfolding mute_monitor Monitors.mute_monitor
  mute-Ensures = flag-Ensures i user (muted_row true) EventType.mute "Alerts muted"

  unmute-Ensures :
      Ensures
        (unmute_monitor i user)
        (Flagged i user (muted_row false) EventType.unmute "Alerts unmuted")
  unfolding unmute_monitor Monitors.unmute_monitor
  unmute-Ensures = flag-Ensures i user (muted_row false) EventType.unmute "Alerts unmuted"

  paused_row_rests :
      (t : Instant) (m : Monitor) (now : Instant) (locked : ℕ → Bool)
      → (is_due now locked (paused_row t m) ≡ false)
        × (is_probe_due now locked (paused_row t m) ≡ false)
  unfolding is_due is_probe_due
  paused_row_rests t m now locked = (ground arith, ground arith)

  -- A pause that commits found a monitor of this id that the caller owns; the
  -- row is answered with its state as it was, and no claim of the scheduler or of the prober takes
  -- it, at whatever time.
  pub paused_rests :
      (c c' : Conn) (r : Monitor)
      → pause_monitor i user c ≡ (ok r, c')
      → (m : Monitor) × (find (is_owned i user) c.db.monitors ≡ some m)
        × (find (is_owned i user) c'.db.monitors ≡ some r)
        × (r.state ≡ m.state)
        × ((now : Instant) (locked : ℕ → Bool)
            → (is_due now locked r ≡ false) × (is_probe_due now locked r ≡ false))
  paused_rests c c' r h =
      let f = pause-Ensures.holds c c' r h in
      let (m, found, same, e) = f in
      (
        m,
        found,
        row_there i user paused_row EventType.pause "Monitor paused" c.db c'.db r (λ now x. refl) f,
        ap (λ (x : Monitor). x.state) same,
        λ now locked. rw same (paused_row_rests c.db.now m now locked),
      )

  -- Whatever statements fail, pausing, muting and unmuting keep the promise of the outbox.
  pub flags-IsOutbox :
      (c : Conn)
      → IsOutbox c.db
      → IsOutbox (pause_monitor i user c).1.db
        × IsOutbox (mute_monitor i user c).1.db
        × IsOutbox (unmute_monitor i user c).1.db
  unfolding pause_monitor Monitors.pause_monitor mute_monitor Monitors.mute_monitor unmute_monitor
      Monitors.unmute_monitor
  flags-IsOutbox c o = (
    flagged-IsOutbox i user paused_row EventType.pause "Monitor paused"
        (λ d p j. noted-IsOutbox j EventType.pause _ empty d p refl) c o,
    flagged-IsOutbox i user (muted_row true) EventType.mute "Alerts muted"
        (λ d p j. noted-IsOutbox j EventType.mute _ empty d p refl) c o,
    flagged-IsOutbox i user (muted_row false) EventType.unmute "Alerts unmuted"
        (λ d p j. noted-IsOutbox j EventType.unmute _ empty d p refl) c o,
  )
