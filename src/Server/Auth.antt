-- ===== src/Server/Auth.antt =====
-- backend/server/auth_middleware.go: who a request comes from. The verification of a JWT is the
-- parameter `parse_access_token`, which gives its subject, and the text of an id `uuid_text`; Redis
-- is that of Store.RateLimit.
pub mod Laws
mod Examples
use Prim.Native.Char.{Char, code}
use Prim.Native.String
use Prim.Native.String.{◌++◌}
use text.Mathlib.Text.{starts_with}
use ping.Prelude.{ℕ, ◌/◌, String, Bool, true, false, Option, none, some, ◌==◌, if◌then◌else◌}
use ping.Schedule.{Instant, second, minute}
use ping.Db.Result.{Result, ok, err, Error}
use ping.Store.{Conn}
use ping.Store.RateLimit.{Redis, Allowance, allow}
use ping.Store.ApiKeys.{AuthenticatedApiKey, authenticate_api_key}
use ping.Schedule.Text.{is_empty}

abbrev pub bearer_prefix : String
bearer_prefix = "Bearer "

abbrev pub api_key_rate_limit : ℕ
api_key_rate_limit = 300

abbrev pub api_key_rate_window : ℕ
api_key_rate_window = minute

-- strings.CutPrefix.
unfoldable pub cut_prefix : String → String → Option String
cut_prefix s String.[] = some s
cut_prefix String.[] (String.◌∷◌ c p) = none
cut_prefix (String.◌∷◌ d s) (String.◌∷◌ c p) =
    let rest = cut_prefix s p in if code d == code c then rest else none

abbrev pub unless_empty : Option String → Option String
unless_empty none = none
unless_empty (some t) = if is_empty t then none else some t

-- The token of the Authorization header.
unfoldable pub bearer_token : String → Option String
unfolding cut_prefix
bearer_token header = unless_empty (cut_prefix header bearer_prefix)

-- The request goes on as a user, or is answered with 401, with 429 and the seconds of Retry-After,
-- or with the error of the store.
pub data Passage : Type 0 where
  passes : ℕ → Passage
  unauthorized : Passage
  limited : ℕ → Passage
  refused : Error → Passage

abbrev pub by_subject : Option ℕ → Passage
by_subject none = unauthorized
by_subject (some user) = passes user

-- requireAuth.
unfoldable pub require_auth : (String → Option ℕ) → String → Passage
require_auth parse_access_token header = elim (bearer_token header) [
  | none ↦ unauthorized
  | some token ↦ by_subject (parse_access_token token)
]

module _ (hash_token : String → String) (parse_access_token : String → Option ℕ)
    (uuid_text : ℕ → String) (redis : Redis) (now : Instant) (s : redis.State) where
  -- What follows the look-up of a key.
  abbrev pub by_key : Result AuthenticatedApiKey × Conn → Passage × redis.State × Conn
  by_key (err e, c) = (refused e, s, c)
  by_key (ok authed, c) =
      let r =
        allow redis ("rate:apikey:" ++ uuid_text authed.key_id) api_key_rate_limit
          api_key_rate_window now true s in
      if r.0.allowed
      then (passes authed.user_id, r.1, c)
      else (limited (r.0.retry_after / second), r.1, c)

  abbrev pub by_token : String → Conn → Passage × redis.State × Conn
  by_token token c =
      if starts_with token "pk_"
      then by_key (authenticate_api_key hash_token token c)
      else (by_subject (parse_access_token token), s, c)

  abbrev pub with_token : Option String → Conn → Passage × redis.State × Conn
  with_token none c = (unauthorized, s, c)
  with_token (some token) c = by_token token c

  -- requireAuthOrAPIKey.
  unfoldable pub require_auth_or_api_key : String → Conn → Passage × redis.State × Conn
  require_auth_or_api_key header c = with_token (bearer_token header) c
