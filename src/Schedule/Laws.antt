-- ===== src/Schedule/Laws.antt =====
-- What a valid schedule is, and where the occurrence and the deadline of one lie.
use ping.Prelude.{
  ◌≢◌, ℕ, suc, String, Bool-cases, false, ◌+◌, ◌*◌, ◌≤◌, ◌≡◌, refl, inl, inr, ◌↔◌, true, false,
  none, some, arith, length, if◌then◌else◌, Option-cases, ◌==◌,
}
use ping.Prelude.Int.{pos, ◌≤ℤ◌}
use ping.Schedule.{
  Config, Zones, Kind, period, cron, other, parsed, ValidationError, Instant, add, min_period,
  max_period, min_grace, max_grace, minute, hour, validate, Occurrence, at, invalid,
  next_occurrence, next_deadline, is_outside, must_be_zero,
}
use ping.Schedule.Text.{is_empty, contains, fields, codes}

-- The rules of the product for a schedule, with no order among them.
pub data IsSchedule (z : Zones) (cfg : Config) : Type 0 where
  of_period :
      cfg.kind ≡ period
      → is_empty cfg.cron_expr ≡ true
      → min_period ≤ℤ cfg.period
      → cfg.period ≤ℤ max_period
      → IsSchedule z cfg
  of_cron :
      cfg.kind ≡ cron
      → cfg.period ≡ pos 0
      → is_empty cfg.cron_expr ≡ false
      → contains b'=' (codes cfg.cron_expr) ≡ false
      → length (fields (codes cfg.cron_expr)) ≡ 5
      → z.parse cfg.cron_expr ≡ parsed
      → IsSchedule z cfg

pub record IsValid (z : Zones) (cfg : Config) : Type 0 where
  pub named : is_empty cfg.tz ≡ false
  pub known : z.known cfg.tz ≡ true
  pub grace_low : min_grace ≤ℤ cfg.grace
  pub grace_high : cfg.grace ≤ℤ max_grace
  pub schedule : IsSchedule z cfg

module _ (z : Zones) (cfg : Config) where
  of_IsSchedule :
      IsSchedule z cfg
      → is_empty cfg.tz ≡ false
      → z.known cfg.tz ≡ true
      → min_grace ≤ℤ cfg.grace
      → cfg.grace ≤ℤ max_grace
      → validate z cfg ≡ none
  unfolding validate
  of_IsSchedule (of_period k e lo hi) n kn gl gh = ground arith
  of_IsSchedule (of_cron k e lo hi f p) n kn gl gh = ground arith

  period_of :
      cfg.kind ≡ period
      → validate z cfg ≡ none
      → (is_empty cfg.cron_expr ≡ true) × (min_period ≤ℤ cfg.period) × (cfg.period ≤ℤ max_period)
  unfolding validate
  period_of k h = ground arith

  cron_of :
      cfg.kind ≡ cron
      → validate z cfg ≡ none
      → (cfg.period ≡ pos 0)
        × (is_empty cfg.cron_expr ≡ false)
        × (contains b'=' (codes cfg.cron_expr) ≡ false)
        × (length (fields (codes cfg.cron_expr)) ≡ 5)
        × (z.parse cfg.cron_expr ≡ parsed)
  unfolding validate
  cron_of k h = ground arith

  not_other : (s : String) → cfg.kind ≡ other s → validate z cfg ≢ none
  unfolding validate
  not_other s k h = ground arith

  IsSchedule-of : validate z cfg ≡ none → (k : Kind) → cfg.kind ≡ k → IsSchedule z cfg
  IsSchedule-of h period k = let (e, lo, hi) = period_of k h in of_period k e lo hi
  IsSchedule-of h cron k = let (p, e, c, f, r) = cron_of k h in of_cron k p e c f r
  IsSchedule-of h (other s) k = absurd (not_other s k h)

  common_of :
      validate z cfg ≡ none
      → (is_empty cfg.tz ≡ false)
        × (z.known cfg.tz ≡ true)
        × (min_grace ≤ℤ cfg.grace)
        × (cfg.grace ≤ℤ max_grace)
  unfolding validate
  common_of h = ground arith

  pub validate_iff : (validate z cfg ≡ none) ↔ IsValid z cfg
  validate_iff = (
    λ h.
        let (n, kn, gl, gh) = common_of h in
        record {
          named = n;
          known = kn;
          grace_low = gl;
          grace_high = gh;
          schedule = IsSchedule-of h cfg.kind refl;
        },
    λ v. of_IsSchedule v.schedule v.named v.known v.grace_low v.grace_high,
  )

  -- The occurrence and the deadline are refused with the error of the validation, and with no
  -- other: both give an instant exactly for a valid configuration.
  pub next-validate :
      (last_checkin now : Instant) (e : ValidationError)
      → ((validate z cfg ≡ some e) ↔ (next_occurrence z cfg last_checkin now ≡ invalid e))
        × ((validate z cfg ≡ some e) ↔ (next_deadline z cfg last_checkin now ≡ invalid e))
  unfolding next_occurrence next_deadline
  next-validate last_checkin now e = elim (Option-cases (validate z cfg)) [
    | inl p ↦ (rw p (ground arith), rw p (ground arith))
    | inr (e', p) ↦ (rw p (ground arith), rw p (ground arith))
  ]

  grace_add :
      (t : Instant)
      → min_grace ≤ℤ cfg.grace
      → cfg.grace ≤ℤ max_grace
      → (t + minute ≤ add t cfg.grace) × (add t cfg.grace ≤ t + 30 * 24 * hour)
  grace_add t lo hi = ground arith

  valid_of_at :
      (last_checkin now t : Instant)
      → next_occurrence z cfg last_checkin now ≡ at t
      → validate z cfg ≡ none
  unfolding next_occurrence
  valid_of_at last_checkin now t h = ground arith

  split_deadline :
      (last_checkin now deadline : Instant) (o : Occurrence)
      → next_occurrence z cfg last_checkin now ≡ o
      → next_deadline z cfg last_checkin now ≡ at deadline
      → (t : Instant) × (next_occurrence z cfg last_checkin now ≡ at t)
        × (add t cfg.grace ≡ deadline)
  unfolding next_deadline
  split_deadline last_checkin now deadline (at t) e h = (t, e, ground arith)
  split_deadline last_checkin now deadline (invalid x) e h = absurd (ground arith)

  -- A deadline is the occurrence with the grace added, so it lies 1 minute to 30 days behind it.
  pub next_deadline_window :
      (last_checkin now deadline : Instant)
      → next_deadline z cfg last_checkin now ≡ at deadline
      → (t : Instant) × (next_occurrence z cfg last_checkin now ≡ at t)
        × (t + minute ≤ deadline)
        × (deadline ≤ t + 30 * 24 * hour)
  next_deadline_window last_checkin now deadline h =
      let (t, e, sum) = split_deadline last_checkin now deadline _ refl h in
      let (_, _, lo, hi) = common_of (valid_of_at last_checkin now t e) in
      let (below, above) = grace_add t lo hi in (t, e, rw sum at below, rw sum at above)

  -- The occurrence of a valid period schedule lies 1 minute to 365 days behind the last
  -- check-in, or behind `now` if there was none.
  pub next_occurrence_period :
      (last_checkin now t : Instant)
      → cfg.kind ≡ period
      → next_occurrence z cfg last_checkin now ≡ at t
      → let from = if last_checkin == 0 then now else last_checkin in
        (from + minute ≤ t) × (t ≤ from + 365 * 24 * hour)
  unfolding next_occurrence
  next_occurrence_period last_checkin now t k h =
      ground (arith, period_of k (valid_of_at last_checkin now t h))

-- A valid expression with a period beside it is refused for the period.
pub stray_period :
    (z : Zones) (cfg : Config) (n : ℕ)
    → cfg.kind ≡ Kind.cron
    → validate z cfg ≡ none
    → validate z (record cfg { period = pos (suc n) })
      ≡ some (record { field = "period_s"; message = must_be_zero })
unfolding validate
stray_period z cfg n k h = elim (Bool-cases (is_empty cfg.tz)) [
  | inl a ↦ absurd (ground (arith, rw a at h))
  | inr a ↦ elim (Bool-cases (z.known cfg.tz)) [
    | inr b ↦ absurd (ground (arith, rw (a, b) at h))
    | inl b ↦ elim (Bool-cases (is_outside cfg.grace min_grace max_grace)) [
      | inl c ↦ absurd (ground (arith, rw (a, b, c) at h))
      | inr c ↦ rw (a, b, c, k) (ground arith)
    ]
  ]
]
