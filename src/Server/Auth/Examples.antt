-- ===== src/Server/Auth/Examples.antt =====
-- A request with a key of the owner.
use ping.Prelude.{ℕ, ◌*◌, ◌≡◌, refl, String, Option, none, some, [], ◌∷◌, find, update_where}
use ping.Schedule.{hour}
use ping.Db.{Db}
use ping.Db.ApiKeys.{new_row, get_api_key_by_hash, touch_api_key_last_used}
use ping.Db.Samples.{quiet}
use ping.Store.{calm, exec, ◌>>=◌}
use ping.Store.ApiKeys.{authenticate_api_key}
use ping.Store.RateLimit.{allow}
use ping.Store.RateLimit.Examples.{keys, nothing}
use ping.Server.Auth.{passes, bearer_token, cut_prefix, require_auth_or_api_key}
use ping.Server.Auth.Laws.{IsHolder, passes_lem}

abbrev plain_hash : String → String
plain_hash s = s

abbrev no_token : String → Option ℕ
no_token s = none

abbrev one_key : ℕ → String
one_key i = "one"

abbrev with_laptop : Db
with_laptop = record quiet { api_keys = new_row 1 7 "pk_00ff" "laptop" (90 * hour) ∷ [] }

laptop_passes :
    (require_auth_or_api_key plain_hash no_token one_key keys
      (101 * hour)
      nothing
      "Bearer pk_00ff"
      (calm with_laptop)).0
    ≡ passes 7
unfolding require_auth_or_api_key bearer_token cut_prefix authenticate_api_key get_api_key_by_hash
    touch_api_key_last_used exec ◌>>=◌ find update_where allow
laptop_passes = refl

passes_lem_example :
    (token : String) × (bearer_token "Bearer pk_00ff" ≡ some token)
    × IsHolder plain_hash no_token with_laptop token 7
passes_lem_example =
    passes_lem plain_hash no_token one_key keys (101 * hour) nothing "Bearer pk_00ff"
      (calm with_laptop) 7 laptop_passes
