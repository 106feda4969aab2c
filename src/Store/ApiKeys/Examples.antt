-- ===== src/Store/ApiKeys/Examples.antt =====
-- A key is created, and a key that was revoked is tried again.
use ping.Prelude.{
  ℕ, ◌*◌, ◌≡◌, refl, ◌⊎◌, String, Bool, true, false, some, List, [], ◌∷◌, find, is_some,
}
use ping.Schedule.{hour}
use ping.Db.{Db, ApiKey}
use ping.Db.Result.{err, driver, invalid_api_key}
use ping.Db.Edits.{has_user}
use ping.Db.ApiKeys.{new_row, revoked}
use ping.Db.Samples.{quiet}
use ping.Store.{Conn, calm}
use ping.Store.Returns.{Returns}
use ping.Store.ApiKeys.{CreatedApiKey, create_api_key, authenticate_api_key}
use ping.Store.ApiKeys.Revoked.{
  IsRevoked, KeyOperation, create_key, revoke_key, authenticate_key, key_history, revoked_rests,
}
use ping.Store.ApiKeys.Fresh.{fresh_key}

abbrev plain_hash : String → String
plain_hash s = s

owner_there : is_some (find (has_user 7) quiet.users) ≡ true
unfolding find
owner_there = refl

fresh_key_example :
    (d' : Db) × (d'' : Db) × (r : CreatedApiKey) × Returns
      (create_api_key plain_hash 1 7 "laptop" (some "00ff"))
      quiet
      r
      d'
    × Returns
        (authenticate_api_key plain_hash r.plain_key)
        d'
        (record { user_id = 7; key_id = 1 })
        d''
unfolding find
fresh_key_example = fresh_key plain_hash 1 7 "laptop" "00ff" quiet refl refl owner_there

abbrev leaked : ApiKey
leaked = revoked (101 * hour) (new_row 1 7 "pk_00ff" "laptop" (90 * hour))

abbrev cleaned : Db
cleaned = record quiet { api_keys = leaked ∷ [] }

cleaned-IsRevoked : IsRevoked "pk_00ff" cleaned
unfolding find
cleaned-IsRevoked = record { there = refl; spent = (refl, tt) }

abbrev fine : ℕ → Bool
fine n = false

abbrev attempts : List (KeyOperation × (ℕ → Bool))
attempts =
    (create_key 2 7 "phone" (some "00ff"), fine)
    ∷ (revoke_key 1 7, fine)
    ∷ (authenticate_key "pk_00ff", fine)
    ∷ []

abbrev later : Conn
later = calm (key_history plain_hash attempts cleaned)

revoked_rests_example :
    ((authenticate_api_key plain_hash "pk_00ff" later).0 ≡ err invalid_api_key)
    ⊎ ((authenticate_api_key plain_hash "pk_00ff" later).0 ≡ err driver)
revoked_rests_example =
    revoked_rests plain_hash "pk_00ff" attempts cleaned later cleaned-IsRevoked refl
