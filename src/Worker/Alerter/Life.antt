-- ===== src/Worker/Alerter/Life.antt =====
-- The life of an alert: it is claimed and dispatched until it leaves the outbox.
use ping.Prelude.{
  ◌*◌, ◌⊎◌, is_some, ℕ, ◌+◌, ◌≤◌, ◌<◌, ◌≡◌, refl, ap, ◌∙◌, inl, inr, Bool, true, false, String,
  Option, none, some, List, [], ◌∷◌, find, length, Bool-cases, All, arith, map_option,
  find-update_where, if◌then◌else◌,
}
use ping.Schedule.{second}
use ping.Db.{Alert, has_monitor, has_id}
use ping.Db.Outbox.{has_alert_id, is_pending}
use ping.Store.Tx.{Clean}
use ping.Store.Alerter.{AlertJob}
use ping.Worker.Alerter.{World, dispatch}
use ping.Worker.Alerter.Delivery.{Settles}
use ping.Worker.Alerter.Settling.{dispatch-Settles}

-- The job that a claim of the row gives.
abbrev claimed : ℕ → Alert → AlertJob → AlertJob
claimed i a job = record job { id = i; attempts = a.attempts }

abbrev deliver_row : Bool → String → ℕ → Option Alert → AlertJob → World → World
deliver_row has_channel base_url i none job w = w
deliver_row has_channel base_url i (some a) job w =
    if is_pending a.status then dispatch has_channel base_url (claimed i a job) w else w

-- The alert is claimed and dispatched if it is pending; `job` has what the joins give.
abbrev pub deliver : Bool → String → ℕ → AlertJob → World → World
deliver has_channel base_url i job w =
    deliver_row has_channel base_url i (find (has_alert_id i) w.conn.db.alerts) job w

-- One delivery after the other, with what the joins give at each.
pub deliver_all : Bool → String → ℕ → List AlertJob → World → World
deliver_all has_channel base_url i [] w = w
deliver_all has_channel base_url i (job ∷ jobs) w =
    deliver_all has_channel base_url i jobs (deliver has_channel base_url i job w)

-- The row after a delivery: if it is pending still, one attempt more was made, and fewer than three.
Progress : ℕ → Alert → World → World → Type 0
Progress i a w w' =
    (a' : Alert) × (find (has_alert_id i) w'.conn.db.alerts ≡ some a')
    × (is_pending a'.status ≡ true
        → (is_pending a.status ≡ true) × (a'.attempts ≡ a.attempts + 1) × (a'.attempts < 3))
    × Clean w'.conn
    × (w'.conn.db.monitors ≡ w.conn.db.monitors)

settled_row :
    (i : ℕ) (a : Alert) (job : AlertJob) (w w' : World)
    → find (has_alert_id i) w.conn.db.alerts ≡ some a
    → is_pending a.status ≡ true
    → Settles (claimed i a job) w w'
    → Progress i a w w'
unfolding Progress
settled_row i a job w w' e before s = (
  s.change_of a,
  ap (find (has_alert_id i)) s.changed
      ∙ find-update_where (has_alert_id i) s.change_of (λ x. rw (s.keeps_id x) refl)
          w.conn.db.alerts
      ∙ ap (map_option s.change_of) e,
  λ p. let (q, r, _) = s.step a refl p in (before, q, r),
  s.clean,
  s.same_monitors,
)

-- A row that is not pending is passed over.
either-Progress :
    (b : Bool) (i : ℕ) (a : Alert) (w w' : World)
    → is_pending a.status ≡ b
    → find (has_alert_id i) w.conn.db.alerts ≡ some a
    → Clean w.conn
    → (is_pending a.status ≡ true → Progress i a w w')
    → Progress i a w (if b then w' else w)
unfolding Progress
either-Progress true i a w w' p e k h = h p
either-Progress false i a w w' p e k h = (a, e, λ q. absurd (ground arith), k, refl)

deliver-Progress :
    (has_channel : Bool) (base_url : String) (i : ℕ) (a : Alert) (job : AlertJob) (w : World)
    → find (has_alert_id i) w.conn.db.alerts ≡ some a
    → Clean w.conn
    → has_monitor job.monitor_id w.conn.db ≡ true
    → Progress i a w (deliver has_channel base_url i job w)
deliver-Progress has_channel base_url i a job w e k here = rw e (
    either-Progress (is_pending a.status) i a w _ refl e k (λ p.
      settled_row i a job w (dispatch has_channel base_url (claimed i a job) w) e p
        (dispatch-Settles has_channel base_url (claimed i a job) w k here)))

still_there :
    (w w' : World) (jobs : List AlertJob)
    → w'.conn.db.monitors ≡ w.conn.db.monitors
    → All (λ j. has_monitor j.monitor_id w.conn.db ≡ true) jobs
    → All (λ j. has_monitor j.monitor_id w'.conn.db ≡ true) jobs
still_there w w' [] e h = tt
still_there w w' (j ∷ jobs) e (p, h) =
    (ap (λ ms. is_some (find (has_id j.monitor_id) ms)) e ∙ p, still_there w w' jobs e h)

-- A row that is pending after these deliveries was pending all along, and each was counted.
counted :
    (has_channel : Bool) (base_url : String) (i : ℕ) (jobs : List AlertJob) (a : Alert) (w : World)
    → find (has_alert_id i) w.conn.db.alerts ≡ some a
    → Clean w.conn
    → All (λ j. has_monitor j.monitor_id w.conn.db ≡ true) jobs
    → (a' : Alert) × (find
          (has_alert_id i)
          (deliver_all has_channel base_url i jobs w).conn.db.alerts
        ≡ some a')
      × (is_pending a'.status ≡ true
          → (is_pending a.status ≡ true)
            × (a'.attempts ≡ a.attempts + length jobs)
            × (a'.attempts < 3 ⊎ length jobs ≡ 0))
unfolding deliver_all Progress
counted has_channel base_url i [] a w e k h = (a, e, λ p. (p, omega arith, inr refl))
counted has_channel base_url i (job ∷ jobs) a w e k (here, h) =
    let (a₁, e₁, p₁, k₁, m₁) = deliver-Progress has_channel base_url i a job w e k here in
    let w₁ = deliver has_channel base_url i job w in
    let (a₂, e₂, p₂) =
      counted has_channel base_url i jobs a₁ w₁ e₁ k₁ (still_there w w₁ jobs m₁ h) in
    (
      a₂,
      e₂,
      λ p.
          let (q, sum, less) = p₂ p in
          let (before, one, below) = p₁ q in
          (
            before,
            omega (arith, sum, one),
            inl (elim less [ inl l ↦ l | inr z ↦ omega (arith, z, sum, below) ]),
          ),
    )

-- Where no statement fails for the driver's reason and the monitors of the jobs are in the table, an
-- alert of the table that is claimed and dispatched three times or more has left the outbox,
-- whatever the channel answers and however many attempts were made before: its row is there and
-- not pending.
pub alert_settled :
    (has_channel : Bool) (base_url : String) (i : ℕ) (jobs : List AlertJob) (a : Alert) (w : World)
    → find (has_alert_id i) w.conn.db.alerts ≡ some a
    → Clean w.conn
    → All (λ j. has_monitor j.monitor_id w.conn.db ≡ true) jobs
    → 3 ≤ length jobs
    → (a' : Alert) × (find
          (has_alert_id i)
          (deliver_all has_channel base_url i jobs w).conn.db.alerts
        ≡ some a')
      × (is_pending a'.status ≡ false)
alert_settled has_channel base_url i jobs a w e k h three =
    let (a', e', p) = counted has_channel base_url i jobs a w e k h in
    (
      a',
      e',
      elim (Bool-cases (is_pending a'.status)) [
        | inl q ↦
            let (_, sum, less) = p q in
            absurd (elim less [ inl l ↦ omega (arith, sum, l) | inr z ↦ omega (arith, z) ])
        | inr q ↦ q
      ],
    )

-- Where no statement fails for the driver's reason and the job's monitor is in the table, a dispatch
-- of a job that has the attempts of its row leaves the row out of the outbox, or pending with one attempt more, fewer than three,
-- and with its next attempt one to five minutes behind a reading of the clock.
pub dispatch_row :
    (has_channel : Bool) (base_url : String) (job : AlertJob) (a : Alert) (w : World)
    → find (has_alert_id job.id) w.conn.db.alerts ≡ some a
    → a.attempts ≡ job.attempts
    → Clean w.conn
    → has_monitor job.monitor_id w.conn.db ≡ true
    → (a' : Alert) × (find
          (has_alert_id job.id)
          (dispatch has_channel base_url job w).conn.db.alerts
        ≡ some a')
      × (is_pending a'.status ≡ true
          → (a'.attempts ≡ a.attempts + 1)
            × (a'.attempts < 3)
            × ((k : ℕ) × (w.clock k + 60 * second ≤ a'.next_attempt_at)
                × (a'.next_attempt_at ≤ w.clock k + 300 * second)))
dispatch_row has_channel base_url job a w e n k here =
    let s = dispatch-Settles has_channel base_url job w k here in
    (
      s.change_of a,
      ap (find (has_alert_id job.id)) s.changed
          ∙ find-update_where (has_alert_id job.id) s.change_of (λ x. rw (s.keeps_id x) refl)
              w.conn.db.alerts
          ∙ ap (map_option s.change_of) e,
      s.step a n,
    )
