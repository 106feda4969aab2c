-- ===== src/Db/ApiKeys.antt =====
-- backend/db/apikeys.sql.go: the statements on API keys. The id of a new row (gen_random_uuid) is an
-- argument.
use text.Mathlib.Text.{◌==◌ as str_eq}
use ping.Prelude.{
  ℕ, String, Bool, ◌&&◌, ◌||◌, Option, none, some, [], ◌∷◌, ◌++◌, find, select, update_where,
  length, is_some, is_none, ◌==◌, if◌then◌else◌,
}
use ping.Schedule.{Instant}
use ping.Db.{Db, ApiKey}
use ping.Db.Result.{Result, ok, err, no_rows, unique_violation, foreign_key_violation}
use ping.Db.Edits.{has_user}

abbrev pub has_key_hash : String → ApiKey → Bool
has_key_hash h k = str_eq k.key_hash h

abbrev pub has_key_id : ℕ → ApiKey → Bool
has_key_id i k = k.id == i

abbrev pub new_row : ℕ → ℕ → String → String → Instant → ApiKey
new_row id user hash label now = record {
  id = id;
  user_id = user;
  key_hash = hash;
  label = label;
  last_used_at = none;
  revoked_at = none;
  created_at = now;
}

-- UNIQUE (key_hash), the primary key and the reference to the user.
unfoldable pub create_api_key : ℕ → ℕ → String → String → Db → Result (ApiKey × Db)
create_api_key id user hash label db =
    let row = new_row id user hash label db.now in
    if is_some (find (has_key_hash hash) db.api_keys) || is_some (find (has_key_id id) db.api_keys)
    then err unique_violation
    else if is_some (find (has_user user) db.users)
    then ok (row, record db { api_keys = db.api_keys ++ row ∷ [] })
    else err foreign_key_violation

abbrev pub is_valid_key : String → ApiKey → Bool
is_valid_key h k = str_eq k.key_hash h && is_none k.revoked_at

abbrev pub found : Option ApiKey → Db → Result (ApiKey × Db)
found none db = err no_rows
found (some k) db = ok (k, db)

unfoldable pub get_api_key_by_hash : String → Db → Result (ApiKey × Db)
get_api_key_by_hash h db = found (find (is_valid_key h) db.api_keys) db

abbrev pub is_revocable : ℕ → ℕ → ApiKey → Bool
is_revocable i user k = k.id == i && k.user_id == user && is_none k.revoked_at

abbrev pub revoked : Instant → ApiKey → ApiKey
revoked now k = record k { revoked_at = some now }

-- The number of rows that are changed, and the tables.
unfoldable pub revoke_api_key : ℕ → ℕ → Db → Result (ℕ × Db)
revoke_api_key i user db = ok (
  length (select (is_revocable i user) db.api_keys),
  record db { api_keys = update_where (is_revocable i user) (revoked db.now) db.api_keys },
)

abbrev pub touched : Instant → ApiKey → ApiKey
touched now k = record k { last_used_at = some now }

unfoldable pub touch_api_key_last_used : ℕ → Db → Result (Unit {0} × Db)
touch_api_key_last_used i db =
    ok (tt, record db { api_keys = update_where (has_key_id i) (touched db.now) db.api_keys })
