-- ===== src/Worker/Prober.antt =====
-- backend/worker/prober: the probe of a site, in prober.go and probe.go. What the HTTP client makes
-- of a request is the parameter `Exchange`, its connections being those of Guard; the decoding of
-- the JSON in http_config is a parameter too.
pub mod Guard
pub mod Numbers
pub mod Ranges
pub mod Laws
mod Examples
use Prim.Native.Nat.{◌/◌}
use Prim.Native.String
use text.Mathlib.Text.{◌==◌ as str_eq}
use ping.Prelude.{
  ℕ, zero, suc, ◌+◌, ◌*◌, String, Bool, true, false, not, ◌&&◌, ◌||◌, Option, none, some, List, [],
  ◌∷◌, take, leb, ltb, ◌==◌, if◌then◌else◌,
}
use ping.Prelude.Int.{ℤ, pos, negsuc, scale, int32_max}
use ping.Schedule.{Instant, Duration, add, second}
use ping.Schedule.Text.{codes, is_empty}
use ping.Db.{Monitor, State}
use ping.Store.{Op, pure}
use ping.Store.Prober.{ProbeOutcome, RecordProbeResultResult, record_probe_result}

abbrev pub max_body_bytes : ℕ
max_body_bytes = 65536

abbrev pub default_fail_threshold : ℤ
default_fail_threshold = pos 2

-- The fields that the outcome of a probe depends on.
pub record HttpConfig : Type 0 where
  pub keyword : List ℕ
  pub keyword_negate : Bool
  pub follow_redirects : Option Bool

abbrev pub follow_redirects : HttpConfig → Bool
follow_redirects c = elim c.follow_redirects [ none ↦ true | some b ↦ b ]

-- The errors of a request that probeError tells apart, in its order.
pub data RequestError : Type 0 where
  dns certificate handshake disallowed timeout other : RequestError

pub probe_error : RequestError → String
probe_error dns = "dns lookup failed"
probe_error certificate = "tls certificate error"
probe_error handshake = "tls handshake failed"
probe_error disallowed = "target address not allowed"
probe_error timeout = "request timed out"
probe_error other = "request failed"

-- What became of a request, after this many nanoseconds: no request was made, it failed, or a
-- response came with the expiry of its certificate and its body, none if reading it failed.
pub data Exchange : Type 0 where
  invalid : Exchange
  failed : RequestError → ℕ → Exchange
  answered : ℕ → Option Instant → Option (List ℕ) → ℕ → Exchange

pub record ProbeResult : Type 0 where
  pub succeeded : Bool
  pub http_status : Option ℤ
  pub latency_ms : ℤ
  pub error : String
  pub tls_expires_at : Option Instant

unfoldable pub is_success_status : ℕ → Bool
is_success_status code = leb 200 code && ltb code 400

-- The milliseconds of a duration, at most math.MaxInt32.
unfoldable pub latency_ms : ℕ → ℤ
latency_ms d = let ms = d / 1000000 in if ltb int32_max ms then pos int32_max else pos ms

-- strings.Contains, on the bytes.
pub is_prefix : List ℕ → List ℕ → Bool
is_prefix [] ys = true
is_prefix (x ∷ xs) [] = false
is_prefix (x ∷ xs) (y ∷ ys) = x == y && is_prefix xs ys

unfoldable pub contains : List ℕ → List ℕ → Bool
unfolding is_prefix
contains word [] = is_prefix word []
contains word (y ∷ ys) = is_prefix word (y ∷ ys) || contains word ys

abbrev is_nil : List ℕ → Bool
is_nil [] = true
is_nil _ = false

-- Whether the assertion on the keyword fails: `found == cfg.KeywordNegate`.
abbrev same_bool : Bool → Bool → Bool
same_bool true b = b
same_bool false b = not b

unfoldable pub misses_keyword : HttpConfig → List ℕ → Bool
unfolding contains
misses_keyword cfg body =
    not (is_nil cfg.keyword) && same_bool (contains cfg.keyword body) cfg.keyword_negate

abbrev judged : ℕ → Option Instant → ℕ → Bool → String → ProbeResult
judged status expiry d succeeded error = record {
  succeeded = succeeded;
  http_status = some (pos status);
  latency_ms = latency_ms d;
  error = error;
  tls_expires_at = expiry;
}

-- `show` is the text of the status in decimal.
abbrev judge_body :
    (ℕ → String) → HttpConfig → ℕ → Option Instant → Option (List ℕ) → ℕ → ProbeResult
judge_body show cfg status expiry none d =
    judged status expiry d false "failed reading response body"
judge_body show cfg status expiry (some body) d =
    if not (is_success_status status)
    then judged status expiry d false (String.◌++◌ "unexpected status " (show status))
    else if misses_keyword cfg (take max_body_bytes body)
    then judged status expiry d false "keyword assertion failed"
    else judged status expiry d true ""

unfoldable pub run_probe : (ℕ → String) → HttpConfig → Exchange → ProbeResult
unfolding probe_error is_success_status misses_keyword latency_ms
run_probe show cfg invalid = record {
  succeeded = false;
  http_status = none;
  latency_ms = pos 0;
  error = "invalid request";
  tls_expires_at = none;
}
run_probe show cfg (failed e d) = record {
  succeeded = false;
  http_status = none;
  latency_ms = latency_ms d;
  error = probe_error e;
  tls_expires_at = none;
}
run_probe show cfg (answered status expiry body d) = judge_body show cfg status expiry body d

abbrev pub int32_or : Option ℤ → ℤ → ℤ
int32_or none n = n
int32_or (some v) n = v

-- The outcome that probeOne records, at the time `now`.
unfoldable pub outcome_of : Monitor → ProbeResult → Instant → ProbeOutcome
outcome_of m result now = record {
  monitor_id = m.id;
  succeeded = result.succeeded;
  http_status = result.http_status;
  latency_ms = some result.latency_ms;
  error = result.error;
  tls_expiry = result.tls_expires_at;
  fail_threshold = int32_or m.fail_threshold default_fail_threshold;
  prior_state = some m.state;
  prior_fail_streak = m.fail_streak;
  prior_tls_warned = m.tls_warned_expires_at;
  next_probe_at = add now (scale (int32_or m.interval_s (pos 60)) second);
  now = now;
}
