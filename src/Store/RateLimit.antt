-- ===== src/Store/RateLimit.antt =====
-- backend/store/ratelimit.go. Redis is a parameter: a state and its three commands, each of which
-- may fail. The commands of one request run at one instant.
pub mod Window
pub mod Examples
use ping.Prelude.{ℕ, String, Bool, true, false, Option, none, some, ltb, ◌==◌, if◌then◌else◌}
use ping.Prelude.Int.{ℤ, pos, negsuc}
use ping.Schedule.{Instant}
use ping.Db.Result.{Result, ok, err}

pub record Redis : Type 1 where
  pub State : Type 0
  -- INCR, with the new value.
  pub incr : String → Instant → State → Option ℕ × State
  -- EXPIRE, with the length of the time to live.
  pub expire : String → ℕ → Instant → State → Bool × State
  -- TTL, which is negative without a time to live.
  pub ttl : String → Instant → State → Option ℤ × State

-- Whether the request is allowed, after how long a refused one may come again, and whether Redis
-- failed.
pub record Allowance : Type 0 where
  pub allowed : Bool
  pub retry_after : ℕ
  pub failed : Bool

abbrev pub allowance : Allowance
allowance = record { allowed = true; retry_after = 0; failed = false }

abbrev pub fail_open : Allowance
fail_open = record { allowed = true; retry_after = 0; failed = true }

abbrev pub or_window : ℕ → Option ℤ → ℕ
or_window window none = window
or_window window (some (pos n)) = n
or_window window (some (negsuc n)) = window

abbrev pub refusal : ℕ → Allowance
refusal retry_after = record { allowed = false; retry_after = retry_after; failed = false }

module _ (redis : Redis) (key : String) (limit window : ℕ) (now : Instant) where
  -- The last test, with the TTL of a refusal.
  abbrev pub judge : ℕ → redis.State → Allowance × redis.State
  judge count s =
      let (ttl, s') = redis.ttl key now s in
      if ltb limit count then (refusal (or_window window ttl), s') else (allowance, s)

  abbrev pub after_expire : ℕ → Bool × redis.State → Allowance × redis.State
  after_expire count (false, s) = (fail_open, s)
  after_expire count (true, s) = judge count s

  abbrev pub after_incr : Option ℕ × redis.State → Allowance × redis.State
  after_incr (none, s) = (fail_open, s)
  after_incr (some count, s) =
      if count == 1 then after_expire count (redis.expire key window now s) else judge count s

  -- Without Redis there is no limit.
  unfoldable pub allow : Bool → redis.State → Allowance × redis.State
  allow false s = (allowance, s)
  allow true s = after_incr (redis.incr key now s)
