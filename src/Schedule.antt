-- ===== src/Schedule.antt =====
-- backend/schedule/schedule.go and errors.go: the schedule of a heartbeat monitor. An instant is a
-- number of nanoseconds since Go's zero time (1 January of year 1, UTC), so `IsZero` is a test for
-- 0; a `time.Duration` is a signed number of nanoseconds. What the operating system's time zone
-- database and robfig/cron supply is the parameter `Zones`.
pub mod Text
pub mod Laws
pub mod Examples
use ping.Prelude.{
  ℕ, suc, ◌+◌, ◌-◌, ◌*◌, String, Bool, true, false, not, ◌||◌, ◌==◌, Option, none, some,
  if◌then◌else◌, length,
}
use ping.Prelude.Int.{ℤ, pos, negsuc, ltb_ℤ}
use ping.Schedule.Text.{is_empty, contains, fields, codes}

abbrev pub Instant : Type 0
Instant = ℕ

abbrev pub Duration : Type 0
Duration = ℤ

abbrev pub second : ℕ
second = 1_000_000_000

abbrev pub minute : ℕ
minute = 60 * second

abbrev pub hour : ℕ
hour = 60 * minute

abbrev pub min_period : Duration
min_period = pos minute

abbrev pub max_period : Duration
max_period = pos (365 * 24 * hour)

abbrev pub min_grace : Duration
min_grace = pos minute

abbrev pub max_grace : Duration
max_grace = pos (30 * 24 * hour)

-- Go's `Time.Add`. A sum before the zero time, which no schedule reaches, stops at it.
abbrev pub add : Instant → Duration → Instant
add t (pos n) = t + n
add t (negsuc n) = t - suc n

-- The type Kind is a string: `other` is any that is neither constant.
pub data Kind : Type 0 where
  period cron : Kind
  other : String → Kind

pub record Config : Type 0 where
  pub kind : Kind
  pub period : Duration
  pub cron_expr : String
  pub tz : String
  pub grace : Duration

-- What robfig/cron's parser does with an expression: an error and a panic carry their text.
pub data CronParse : Type 0 where
  parsed : CronParse
  rejected : String → CronParse
  panicked : String → CronParse

-- `known` says whether time.LoadLocation finds a zone. `next expr tz t` is what the schedule that
-- `expr` parses to gives after `t` in the zone `tz`.
pub record Zones : Type 0 where
  pub known : String → Bool
  pub parse : String → CronParse
  pub next : String → String → Instant → Instant

-- The messages of a validation error, a constructor for each format.
pub data Message : Type 0 where
  timezone_required : Message
  unknown_timezone : String → Message
  must_be_between : Duration → Duration → Message
  must_be_empty : Message
  must_be_zero : Message
  cron_required : Message
  no_timezone_prefix : Message
  expected_five_fields : Message
  invalid_cron : String → Message
  unknown_kind : Message

pub record ValidationError : Type 0 where
  pub field : String
  pub message : Message

-- An instant, or the error of the validation.
pub data Occurrence : Type 0 where
  at : Instant → Occurrence
  invalid : ValidationError → Occurrence

abbrev refuse : String → Message → Option ValidationError
refuse field message = some (record { field = field; message = message })

-- The error of safeParseCron: the parser's own, or the panic that it recovers from.
unfoldable pub safe_parse_cron : CronParse → Option String
safe_parse_cron parsed = none
safe_parse_cron (rejected text) = some text
safe_parse_cron (panicked text) = some text

abbrev pub is_outside : Duration → Duration → Duration → Bool
is_outside d lo hi = ltb_ℤ d lo || ltb_ℤ hi d

abbrev is_zero : Duration → Bool
is_zero (pos n) = n == 0
is_zero (negsuc n) = false

parse_error : Option String → Option ValidationError
parse_error none = none
parse_error (some text) = refuse "cron_expr" (invalid_cron text)

module _ (z : Zones) where
  -- The arms of the switch of `Validate`.
  validate_kind : Kind → Config → Option ValidationError
  validate_kind period cfg =
      if not (is_empty cfg.cron_expr)
      then refuse "cron_expr" must_be_empty
      else if is_outside cfg.period min_period max_period
      then refuse "period_s" (must_be_between min_period max_period)
      else none
  validate_kind cron cfg =
      if not (is_zero cfg.period)
      then refuse "period_s" must_be_zero
      else if is_empty cfg.cron_expr
      then refuse "cron_expr" cron_required
      else if contains b'=' (codes cfg.cron_expr)
      then refuse "cron_expr" no_timezone_prefix
      else if not (length (fields (codes cfg.cron_expr)) == 5)
      then refuse "cron_expr" expected_five_fields
      else parse_error (safe_parse_cron (z.parse cfg.cron_expr))
  validate_kind (other _) cfg = refuse "schedule_kind" unknown_kind

  unfoldable pub validate : Config → Option ValidationError
  unfolding validate_kind parse_error safe_parse_cron
  validate cfg =
      if is_empty cfg.tz
      then refuse "tz" timezone_required
      else if not (z.known cfg.tz)
      then refuse "tz" (unknown_timezone cfg.tz)
      else if is_outside cfg.grace min_grace max_grace
      then refuse "grace_s" (must_be_between min_grace max_grace)
      else validate_kind cfg.kind cfg

  -- What follows the validation in NextOccurrence.
  occurrence_after : Kind → Config → Instant → Instant
  occurrence_after period cfg from = add from cfg.period
  occurrence_after _ cfg from = z.next cfg.cron_expr cfg.tz from

  unfoldable pub next_occurrence : Config → Instant → Instant → Occurrence
  unfolding occurrence_after
  next_occurrence cfg last_checkin now = elim (validate cfg) [
    | some e ↦ invalid e
    | none ↦ at (occurrence_after cfg.kind cfg (if last_checkin == 0 then now else last_checkin))
  ]

  unfoldable pub next_deadline : Config → Instant → Instant → Occurrence
  next_deadline cfg last_checkin now = elim (next_occurrence cfg last_checkin now) [
    | invalid e ↦ invalid e
    | at t ↦ at (add t cfg.grace)
  ]
