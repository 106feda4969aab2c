-- ===== src/Store/ApiKeys.antt =====
-- backend/store/apikey.go. SHA-256 with its hexadecimal text is the parameter `hash_token`, and what
-- crypto/rand gives, in hexadecimal, an argument.
pub mod Found
pub mod Revoked
pub mod Fresh
mod Examples
use Prim.Native.String.{◌++◌}
use ping.Prelude.{ℕ, String, Bool, Option, none, some, ◌==◌, if◌then◌else◌}
use ping.Db.{ApiKey}
use ping.Db.Result.{Result, ok, err, Error, no_rows, not_found, invalid_api_key, no_randomness}
use ping.Db.ApiKeys
use ping.Db.ApiKeys.{get_api_key_by_hash, touch_api_key_last_used}
use ping.Store.{Op, pure, fail_with, ◌>>=◌, ◌>>◌, exec}

abbrev pub api_key_prefix : String
api_key_prefix = "pk_"

pub record CreatedApiKey : Type 0 where
  pub api_key : ApiKey
  pub plain_key : String

pub record AuthenticatedApiKey : Type 0 where
  pub user_id : ℕ
  pub key_id : ℕ

-- pgx.ErrNoRows becomes the error of a refused key.
abbrev pub refuse_key : Result ApiKey → Result ApiKey
refuse_key (err no_rows) = err invalid_api_key
refuse_key r = r

abbrev pub missing_as_refused : Op ApiKey → Op ApiKey
missing_as_refused m c = let r = m c in (refuse_key r.0, r.1)

module _ (hash_token : String → String) where
  unfoldable pub create_api_key : ℕ → ℕ → String → Option String → Op CreatedApiKey
  create_api_key uuid user label none = fail_with no_randomness
  create_api_key uuid user label (some random) = do
    let plain = api_key_prefix ++ random
    row ← exec (ApiKeys.create_api_key uuid user (hash_token plain) label)
    pure (record { api_key = row; plain_key = plain })

  unfoldable pub authenticate_api_key : String → Op AuthenticatedApiKey
  authenticate_api_key plain_key = do
    row ← missing_as_refused (exec (get_api_key_by_hash (hash_token plain_key)))
    exec (touch_api_key_last_used row.id)
    pure (record { user_id = row.user_id; key_id = row.id })

unfoldable pub revoke_api_key : ℕ → ℕ → Op (Unit {0})
revoke_api_key id user = do
  rows_affected ← exec (ApiKeys.revoke_api_key id user)
  if rows_affected == 0 then fail_with not_found else pure tt
