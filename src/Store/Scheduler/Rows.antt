-- ===== src/Store/Scheduler/Rows.antt =====
-- What a tick does to each row: a claimed monitor makes one step, and no other row changes.
use mathlib.Core.Path.{subst}
use ping.Prelude.{
  ℕ, ◌≡◌, refl, sym, ap, ◌∙◌, Bool, Option, none, some, List, [], ◌∷◌, inl, inr, Bool-cases,
  if◌then◌else◌, ◌==◌, ==_iff, find, map_option, is_some, All, All-select_of, All-take, arith,
}
use ping.Schedule.{Instant}
use ping.Db.{Db, Monitor, State, has_id}
use ping.Db.Result.{ok}
use ping.Db.Sort.{All-sort_by}
use ping.Db.Keys.{
  Differs, IsKeyed, IsCurrent, IsKeyed-select, IsKeyed-sort, IsKeyed-take, IsKeyed-IsCurrent,
  find-update,
}
use ping.Db.Monitors.{claim_due_monitors}
use ping.Store.{Conn}
use ping.Store.Scheduler.{EvalResult, evaluate_due_monitors}
use ping.Store.Scheduler.Walk.{
  walk, walk_deadline, walk_state, evaluate-Ensures, late_row, down_row,
}

-- One step of the state machine: from up to late when the occurrence passes, with the grace as the
-- next threshold, and from late to down when that passes.
abbrev pub evaluated_state : Instant → State → Instant → Monitor → Monitor
evaluated_state now State.up t m = late_row m t now m
evaluated_state now State.late t m = down_row now m
evaluated_state now _ t m = m

abbrev evaluated_deadline : Instant → Option Instant → Monitor → Monitor
evaluated_deadline now none m = m
evaluated_deadline now (some t) m = evaluated_state now m.state t m

abbrev pub evaluated : Instant → Monitor → Monitor
evaluated now m = evaluated_deadline now m.next_deadline m

state_now : (s : State) (m : Monitor) (t : Instant) (d : Db) → (walk_state s m t d).now ≡ d.now
state_now State.new m t d = refl
state_now State.up m t d = refl
state_now State.late m t d = refl
state_now State.down m t d = refl

deadline_now : (o : Option Instant) (m : Monitor) (d : Db) → (walk_deadline o m d).now ≡ d.now
deadline_now none m d = refl
deadline_now (some t) m d = state_now m.state m t d

state_row :
    (s : State) (m : Monitor) (t : Instant) (d : Db) (j : ℕ)
    → IsCurrent d.monitors m
    → find (has_id j) (walk_state s m t d).monitors
      ≡ (if m.id == j then some (evaluated_state d.now s t m) else find (has_id j) d.monitors)
state_row State.up m t d j c =
    ground (arith, find-update m.id j (late_row m t d.now) (λ (x : Monitor). refl) d.monitors)
state_row State.late m t d j c =
    ground (arith, find-update m.id j (down_row d.now) (λ (x : Monitor). refl) d.monitors)
state_row State.new m t d j c = ground arith
state_row State.down m t d j c = ground arith

deadline_row :
    (o : Option Instant) (m : Monitor) (d : Db) (j : ℕ)
    → IsCurrent d.monitors m
    → find (has_id j) (walk_deadline o m d).monitors
      ≡ (if m.id == j then some (evaluated_deadline d.now o m) else find (has_id j) d.monitors)
deadline_row none m d j c = ground arith
deadline_row (some t) m d j c = state_row m.state m t d j c

stays-IsCurrent :
    (m : Monitor) (d : Db) (ms : List Monitor)
    → IsCurrent d.monitors m
    → All (Differs m) ms
    → All (IsCurrent d.monitors) ms
    → All (IsCurrent (walk_deadline m.next_deadline m d).monitors) ms
stays-IsCurrent m d [] c a h = tt
stays-IsCurrent m d (x ∷ ms) c (p, a) (q, h) =
    (deadline_row m.next_deadline m d x.id c ∙ rw p q, stays-IsCurrent m d ms c a h)

absent :
    (m : Monitor) (j : ℕ) (ms : List Monitor)
    → m.id ≡ j
    → All (Differs m) ms
    → find (has_id j) ms ≡ none
unfolding find
absent m j [] e a = refl
absent m j (x ∷ ms) e (p, a) = ground (arith, absent m j ms e a)

-- The rows that are not walked stay, and those that are make their step.
abbrev Walked : List Monitor → Instant → Db → Db → ℕ → Type 0
Walked ms now d d' j = find (has_id j) d'.monitors ≡ (
    if is_some (find (has_id j) ms)
    then map_option (evaluated now) (find (has_id j) d.monitors)
    else find (has_id j) d.monitors)

walk_first :
    (m : Monitor) (ms : List Monitor) (d d₁ d' : Db) (j : ℕ)
    → All (Differs m) ms
    → IsCurrent d.monitors m
    → find (has_id j) d₁.monitors
      ≡ (if m.id == j then some (evaluated d.now m) else find (has_id j) d.monitors)
    → Walked ms d.now d₁ d' j
    → Walked (m ∷ ms) d.now d d' j
unfolding find
walk_first m ms d d₁ d' j a c row ih = elim (Bool-cases (m.id == j)) [
  | inl e ↦
      let same = (==_iff m.id j).0 e in
      rw e (
        ih
        ∙ rw (absent m j ms same a) (
            row
            ∙ rw e (
                ap (map_option (evaluated d.now))
                  (sym c ∙ ap (λ k. find (has_id k) d.monitors) same))))
  | inr e ↦
      let same : find (has_id j) d₁.monitors ≡ find (has_id j) d.monitors = row ∙ rw e refl in
      rw e (rw same at ih)
]

walk_row :
    (ms : List Monitor) (d : Db) (j : ℕ)
    → IsKeyed ms
    → All (IsCurrent d.monitors) ms
    → Walked ms d.now d (walk ms d) j
unfolding walk find
walk_row [] d j k h = refl
walk_row (m ∷ ms) d j (a, k) (c, h) =
    let d₁ = walk_deadline m.next_deadline m d in
    walk_first m ms d d₁ (walk ms d₁) j a c (deadline_row m.next_deadline m d j c) (
      subst (λ t. Walked ms t d₁ (walk ms d₁) j) (deadline_now m.next_deadline m d)
        (walk_row ms d₁ j k (stays-IsCurrent m d ms c a h)))

module _ (now : Instant) (limit : ℕ) (locked : ℕ → Bool) where
  claim-IsCurrent :
      (d : Db)
      → IsKeyed d.monitors
      → IsKeyed (claim_due_monitors now limit locked d)
        × All (IsCurrent d.monitors) (claim_due_monitors now limit locked d)
  unfolding claim_due_monitors
  claim-IsCurrent d k = (
    IsKeyed-take limit _ (IsKeyed-sort _ _ (IsKeyed-select _ d.monitors k)),
    All-take _ limit _
        (All-sort_by _ _ _ (All-select_of _ _ d.monitors (IsKeyed-IsCurrent d.monitors k))),
  )

  -- Where ids are distinct, a tick that commits leaves in the row of each id the monitor as it
  -- was, or, if the tick claimed it, the monitor one step further: late with its grace added to
  -- the deadline if it was up, and down with no deadline and a longer streak if it was late.
  pub evaluate_rows :
      (c c' : Conn) (r : EvalResult)
      → IsKeyed c.db.monitors
      → evaluate_due_monitors now limit locked c ≡ (ok r, c')
      → (j : ℕ)
      → find (has_id j) c'.db.monitors ≡ (
          if is_some (find (has_id j) (claim_due_monitors now limit locked c.db))
          then map_option (evaluated c.db.now) (find (has_id j) c.db.monitors)
          else find (has_id j) c.db.monitors)
  evaluate_rows c c' r k h j =
      let (p, q) = (evaluate-Ensures now limit locked).holds c c' r h in
      let (keyed, current) = claim-IsCurrent c.db k in
      ap (λ (x : Db). find (has_id j) x.monitors) q
      ∙ walk_row (claim_due_monitors now limit locked c.db) c.db j keyed current
