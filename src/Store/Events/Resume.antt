-- ===== src/Store/Events/Resume.antt =====
-- What resuming does to the caller's monitor: it is armed from the moment of the resume.
use ping.Prelude.{ℕ, ◌≡◌, refl, ap, sym, ◌∙◌, Option, none, some, find, update_where, arith}
use ping.Schedule.{Zones, Instant, at}
use ping.Db.{Db, Monitor, EventType, text, empty, has_id}
use ping.Db.Result.{ok}
use ping.Db.Monitors
use ping.Db.Monitors.{is_owned, update_owned, resumed_row, get_monitor_by_id}
use ping.Store.{Conn}
use ping.Store.Steps.{
  Ensures, weaken, pure-Ensures, exec-Ensures, missing-Ensures, of_result-Ensures, with_tx-Ensures,
  >>=-Ensures,
}
use ping.Store.Tx.{with_tx-keeps}
use ping.Store.Timeline.{noted, event-Ensures}
use ping.Store.Promise.{IsOutbox, noted-IsOutbox, moved-IsOutbox}
use ping.Store.Checkin.{next_deadline_for}
use ping.Store.Events.{resume_monitor}
use ping.Store.Events.Laws.{owned_value}

module _ (z : Zones) (i user : ℕ) (now : Instant) where
  -- What a resume leaves behind.
  abbrev Resumed : Db → Monitor → Db → Type 0
  Resumed d r d' =
      (m₀ : Monitor) × (nd : Option Instant) × (m : Monitor) × (find (has_id i) d.monitors
        ≡ some m₀)
      × (next_deadline_for z m₀ now ≡ ok nd)
      × (find (is_owned i user) d.monitors ≡ some m)
      × (r ≡ resumed_row nd d.now m)
      × (d'
          ≡ noted r.id EventType.resume (text "Monitor resumed") empty (record d {
            monitors = update_where (is_owned i user) (resumed_row nd d.now) d.monitors;
          }))

  found_value :
      (d : Db) (o : Option Monitor) (m : Monitor) (d' : Db)
      → find (has_id i) d.monitors ≡ o
      → get_monitor_by_id i d ≡ ok (m, d')
      → (find (has_id i) d.monitors ≡ some m) × (d' ≡ d)
  unfolding get_monitor_by_id
  found_value d none m d' e h = absurd (ground arith)
  found_value d (some x) m d' e h = ground arith

  resume-Ensures : Ensures (resume_monitor z i user now) Resumed
  unfolding resume_monitor Monitors.resume_monitor
  resume-Ensures =
      weaken
        (with_tx-Ensures (
          >>=-Ensures (missing-Ensures (exec-Ensures (get_monitor_by_id i))) (λ m.
            >>=-Ensures (of_result-Ensures (next_deadline_for z m now)) (λ nd.
              >>=-Ensures
                (missing-Ensures (exec-Ensures (λ d. update_owned i user (resumed_row nd d.now) d)))
                (λ row.
                  >>=-Ensures (event-Ensures row.id EventType.resume (text "Monitor resumed"))
                    (λ e. pure-Ensures row))))))
        (λ d r d' (m₀, d₁, p, (nd, d₂, (q, same), (row, d₃, u, (e, d₄, (_, v), (a, b))))).
          let (found, here) = found_value d (find (has_id i) d.monitors) m₀ d₁ refl p in
          let there : update_owned i user (resumed_row nd d.now) d ≡ ok (row, d₃) =
            rw (same ∙ here) at u in
          let (m, owned, is_row, after) =
            owned_value i user (resumed_row nd d.now) d (find (is_owned i user) d.monitors) row d₃
              refl there in
          (
            m₀,
            nd,
            m,
            found,
            q,
            owned,
            a ∙ is_row,
            b
                ∙ v
                ∙ ap (noted row.id EventType.resume (text "Monitor resumed") empty) after
                ∙ ap
                    (λ (x : Monitor).
                      noted x.id EventType.resume (text "Monitor resumed") empty (record d {
                        monitors = update_where (is_owned i user) (resumed_row nd d.now) d.monitors;
                      }))
                    (sym a),
          ))

  pub resume-IsOutbox : (c : Conn) → IsOutbox c.db → IsOutbox (resume_monitor z i user now c).1.db
  unfolding resume_monitor
  resume-IsOutbox = with_tx-keeps IsOutbox _ (
      weaken resume-Ensures (λ d r d' (_, _, _, _, _, _, _, e) o.
        rw e (noted-IsOutbox r.id EventType.resume _ empty _ (moved-IsOutbox o) refl)))
