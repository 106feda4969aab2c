-- ===== src/Server/Checkin.antt =====
-- backend/server/checkin.go: the ingest of pings. A slug and an address are texts; the body is
-- bytes, and `decode` gives the text that Postgres takes them for, or none if they are not UTF-8 or
-- have a NUL. Redis is that of Store.RateLimit, the commands of which run at the instant of the
-- ping.
pub mod Codes
pub mod Laws
mod Examples
use Prim.Native.String.{◌++◌}
use ping.Prelude.{
  ℕ, ◌+◌, ◌-◌, ◌*◌, ◌/◌, String, Bool, true, false, not, ◌&&◌, Option, none, some, List, [], ◌∷◌,
  take, ltb, leb, ◌==◌, if◌then◌else◌,
}
use ping.Prelude.Int.{ℤ, pos, negsuc}
use ping.Schedule.{Zones, Instant, second, minute}
use ping.Db.{CheckinKind, success, start, fail}
use ping.Db.Result.{err, invalid_text}
use ping.Db.Monitors.{get_monitor_by_slug_for_update}
use ping.Store.{Conn, Op, ◌>>=◌, exec, with_tx, missing_as_not_found}
use ping.Store.Checkin.{RecordCheckinParams, RecordCheckinResult, record_checkin}
use ping.Store.RateLimit.{Redis, Allowance, allow}

abbrev pub max_checkin_body : ℕ
max_checkin_body = 10 * 1024

abbrev pub ping_rate_limit : ℕ
ping_rate_limit = 120

abbrev pub ping_rate_window : ℕ
ping_rate_window = minute

-- A request, and whether its method is HEAD.
pub record Ping : Type 0 where
  pub slug : String
  pub ip : String
  pub user_agent : String
  pub is_head : Bool
  pub body : List ℕ

-- 200, with the text OK or without, or 429 with the seconds of Retry-After.
pub data PingResponse : Type 0 where
  ping_ok : Bool → PingResponse
  rate_limited : ℕ → PingResponse

abbrev pub read_truncated_body : List ℕ → List ℕ
read_truncated_body bytes = take max_checkin_body bytes

abbrev pub body_of : Ping → List ℕ
body_of p = if p.is_head then [] else read_truncated_body p.body

module _ (z : Zones) (parse_addr : String → Option String) (decode : List ℕ → Option String) where
  -- A text that Postgres does not take fails the INSERT.
  abbrev pub refuse_text : String → Op RecordCheckinResult
  refuse_text slug = with_tx do
    m ← missing_as_not_found (exec (get_monitor_by_slug_for_update slug))
    exec (λ db. err invalid_text)

  abbrev pub record_with : Ping → CheckinKind → Instant → Option String → Op RecordCheckinResult
  record_with p kind now none = refuse_text p.slug
  record_with p kind now (some body) = record_checkin z parse_addr (record {
    slug = p.slug;
    kind = kind;
    source_ip = p.ip;
    user_agent = p.user_agent;
    body = body;
    now = now;
  })

  -- The result of the recording is logged only.
  unfoldable pub ingest :
      (redis : Redis)
      → Ping
      → CheckinKind
      → Instant
      → redis.State
      → Conn
      → PingResponse × redis.State × Conn
  ingest redis p kind now s c =
      let r = allow redis ("rate:ping:" ++ p.ip) ping_rate_limit ping_rate_window now true s in
      if r.0.allowed
      then (ping_ok (not p.is_head), r.1, (record_with p kind now (decode (body_of p)) c).1)
      else (rate_limited (r.0.retry_after / second), r.1, c)

-- strconv.Atoi, over code points.
abbrev pub is_digit : ℕ → Bool
is_digit c = leb 48 c && leb c 57

unfoldable pub digits_value : ℕ → List ℕ → Option ℕ
digits_value acc [] = some acc
digits_value acc (c ∷ s) =
    let rest = digits_value (acc * 10 + (c - 48)) s in if is_digit c then rest else none

abbrev pub unsigned : List ℕ → Option ℕ
unsigned [] = none
unsigned (c ∷ s) = digits_value 0 (c ∷ s)

abbrev pub max_int64 : ℕ
max_int64 = 9223372036854775807

-- The number if it fits into 64 bits.
abbrev pub fit : Option ℕ → Option ℤ
fit none = none
fit (some n) = if leb n max_int64 then some (pos n) else none

abbrev negated : ℕ → ℤ
negated n = if n == 0 then pos 0 else negsuc (n - 1)

abbrev fit_negated : Option ℕ → Option ℤ
fit_negated none = none
fit_negated (some n) = if leb n (max_int64 + 1) then some (negated n) else none

unfoldable pub atoi : List ℕ → Option ℤ
atoi [] = none
atoi (c ∷ s) =
    if c == 45
    then fit_negated (unsigned s)
    else if c == 43
    then fit (unsigned s)
    else fit (unsigned (c ∷ s))

abbrev pub kind_of : Option ℤ → CheckinKind
kind_of none = success
kind_of (some (pos n)) = if n == 0 then success else fail
kind_of (some (negsuc n)) = fail

-- The kind of a ping with an exit code.
unfoldable pub exit_code : List ℕ → CheckinKind
unfolding atoi digits_value
exit_code code = kind_of (atoi code)
