-- ===== src/Server/Monitors/Handlers/Schedules.antt =====
-- A PATCH that is answered, from the look-up to the stored row.
use ping.Prelude.{
  ℕ, ◌≡◌, refl, sym, ap, ◌∙◌, inl, inr, true, Option, none, some, List, [], ◌∷◌, find, ◌==◌,
  Bool-cases, arith,
}
use mathlib.Core.Option.{some-injective}
use mathlib.Core.Path.{subst}
use ping.Schedule.{Zones, validate}
use ping.Db.{Db, Monitor, heartbeat, has_id}
use ping.Db.Result.{ok}
use ping.Db.Edits.{updated_row}
use ping.Db.Monitors.{is_owned, get_monitor_by_id}
use ping.Store.{Conn, Op}
use ping.Store.Steps.{
  Ensures, weaken, pure-Ensures, exec-Ensures, missing-Ensures, if-Ensures, >>=-Ensures,
}
use ping.Store.Checkin.{schedule_config}
use ping.Store.Monitors.{update_params, get_monitor, update_monitor}
use ping.Store.Monitors.Laws.{Patched, update-Ensures}
use ping.Server.Monitors.{
  UpdateMonitorRequest, Checked, accepted, refused, Formats, validate_update,
}
use ping.Server.Monitors.Rows.{IsSteady}
use ping.Server.Monitors.Laws.{patched_schedule}
use ping.Server.Monitors.Handlers.{unless_refused, handle_update}

found_value :
    (i : ℕ) (d : Db) (o : Option Monitor) (m : Monitor) (d' : Db)
    → find (has_id i) d.monitors ≡ o
    → get_monitor_by_id i d ≡ ok (m, d')
    → (find (has_id i) d.monitors ≡ some m) × (d' ≡ d)
unfolding get_monitor_by_id
found_value i d none m d' e h = absurd (ground arith)
found_value i d (some x) m d' e h = ground arith

-- The first row with the id, if the caller owns it, is the first that the caller owns with the id.
owned_first :
    (i user : ℕ) (ms : List Monitor) (m : Monitor)
    → find (has_id i) ms ≡ some m
    → (m.user_id == user) ≡ true
    → find (is_owned i user) ms ≡ some m
unfolding find
owned_first i user [] m h o = absurd (ground arith)
owned_first i user (x ∷ ms) m h o = elim (Bool-cases (x.id == i)) [
  | inl e ↦
      let same : x ≡ m = some-injective _ _ (rw e at h) in
      let owned : (x.user_id == user) ≡ true = ap (λ (y : Monitor). y.user_id == user) same ∙ o in
      rw (e, owned) (ap some same)
  | inr e ↦ rw e (owned_first i user ms m (rw e at h) o)
]

abbrev Got : ℕ → ℕ → Db → Monitor → Db → Type 0
Got i user d m d' =
    (find (has_id i) d.monitors ≡ some m) × (find (is_owned i user) d.monitors ≡ some m) × (d' ≡ d)

get-Ensures : (i user : ℕ) → Ensures (get_monitor i user) (Got i user)
unfolding get_monitor
get-Ensures i user =
    weaken
      (>>=-Ensures (missing-Ensures (exec-Ensures (get_monitor_by_id i))) (λ row.
        if-Ensures (row.user_id == user)
          {P = λ d r d'. (r ≡ row) × (d' ≡ d) × ((row.user_id == user) ≡ true)}
          (λ e. weaken (pure-Ensures row) (λ d r d' (a, b). (a, b, e)))
          (λ e. record { holds = λ c c' a h. absurd (ground arith) })))
      (λ d r d' (row, d₁, q, (a, b, o)).
        let (found, same) = found_value i d (find (has_id i) d.monitors) row d₁ refl q in
        (
          found ∙ ap some (sym a),
          owned_first i user d.monitors row found o ∙ ap some (sym a),
          b ∙ same,
        ))

abbrev Answered :
    {P A : Type 0} → Checked P → (P → Db → A → Db → Type 0) → Db → Checked A → Db → Type 0
Answered {P = P} {A = A} x Q d r d' =
    (a : A) → r ≡ accepted a → (p : P) × (x ≡ accepted p) × Q p d a d'

accepted_injective : {A : Type 0} (a b : A) → accepted a ≡ accepted b → a ≡ b
accepted_injective a b h = ground arith

unless_refused-Ensures :
    {P A : Type 0} (x : Checked P) (f : P → Op A) (Q : P → Db → A → Db → Type 0)
    → ((p : P) → Ensures (f p) (Q p))
    → Ensures (unless_refused x f) (Answered x Q)
unless_refused-Ensures (refused e) f Q h = record { holds = λ c c' r e a q. absurd (ground arith) }
unless_refused-Ensures (accepted p) f Q h =
    weaken (>>=-Ensures (h p) (λ a. pure-Ensures (accepted a))) (λ d r d' (b, d₁, q, (u, v)) a w.
      let same : b ≡ a = accepted_injective b a (sym u ∙ w) in
      (p, refl, subst (λ x. Q p d x d') same (subst (Q p d b) (sym v) q)))

module _ (z : Zones) (formats : Formats) (i user : ℕ) (req : UpdateMonitorRequest) where
  -- Where the look-up of the id finds a heartbeat monitor with a valid schedule, and a PATCH that
  -- does not go from a period to an expression or back is answered with a row, the monitor is the
  -- caller's and the schedule of the row is valid.
  pub handle_update_lem :
      (c c' : Conn) (r m : Monitor)
      → find (has_id i) c.db.monitors ≡ some m
      → m.kind ≡ heartbeat
      → validate z (schedule_config m) ≡ none
      → IsSteady m req.schedule
      → handle_update z formats i user req c ≡ (ok (accepted r), c')
      → (find (is_owned i user) c.db.monitors ≡ some m) × (validate z (schedule_config r) ≡ none)
  unfolding handle_update
  handle_update_lem c c' r m found k valid steady h =
      let (m₁, d₁, (found₁, mine, same), answer) =
        (>>=-Ensures (get-Ensures i user) (λ m.
            unless_refused-Ensures (validate_update z formats m req) (update_monitor i user)
              (Patched i user) (update-Ensures i user))).holds
          c c' (accepted r) h in
      let twin₁ : m₁ ≡ m = some-injective _ _ (sym found₁ ∙ found) in
      let (p, ok_p, (m₂, mine₂, row, _)) = answer r refl in
      let twin₂ : m₂ ≡ m₁ =
        some-injective _ _
          (sym mine₂ ∙ ap (λ (x : Db). find (is_owned i user) x.monitors) same ∙ mine) in
      (
        mine ∙ ap some twin₁,
        ap (λ x. validate z (schedule_config x))
              (row ∙ ap (updated_row (update_params p) d₁.now) (twin₂ ∙ twin₁))
            ∙ patched_schedule z formats m req p d₁.now k
                (ap (λ x. validate_update z formats x req) (sym twin₁) ∙ ok_p) steady valid,
      )
