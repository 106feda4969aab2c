-- ===== src/Store/ApiKeys/Fresh.antt =====
-- A new key lets its owner in.
use text.Mathlib.TextEquality.{eq_iff}
use Prim.Native.String.{◌++◌ as append}
use ping.Prelude.{
  ℕ, ◌≡◌, refl, inl, inr, String, true, none, some, List, [], ◌∷◌, ◌++◌, find, update_where,
  is_some, Bool-cases, arith,
}
use ping.Db.{Db, ApiKey}
use ping.Db.ApiKeys
use ping.Db.ApiKeys.{
  has_key_hash, has_key_id, is_valid_key, new_row, touched, get_api_key_by_hash,
  touch_api_key_last_used,
}
use ping.Db.Edits.{has_user}
use ping.Store.Returns.{Returns, pure-Returns, exec-Returns, >>=-Returns}
use ping.Store.ApiKeys.{api_key_prefix, CreatedApiKey, create_api_key, authenticate_api_key}

-- The last row is the first that is valid if no earlier one has its hash.
find_last :
    (h : String) (ks : List ApiKey) (k : ApiKey)
    → find (has_key_hash h) ks ≡ none
    → is_valid_key h k ≡ true
    → find (is_valid_key h) (ks ++ k ∷ []) ≡ some k
unfolding find
find_last h [] k e v = rw v refl
find_last h (j ∷ ks) k e v = elim (Bool-cases (has_key_hash h j)) [
  | inl q ↦ absurd (ground (arith, rw q at e))
  | inr q ↦ rw q (find_last h ks k (rw q at e) v)
]

module _ (hash_token : String → String) (uuid user : ℕ) (label random : String) (d : Db) where
  abbrev plain : String
  plain = append api_key_prefix random

  abbrev row : ApiKey
  row = new_row uuid user (hash_token plain) label d.now

  abbrev with_key : Db
  with_key = record d { api_keys = d.api_keys ++ row ∷ [] }

  -- Where no statement fails, neither the hash nor the id is given out already, and the user is in
  -- the table, a key is created, and the plain text that is answered lets in the user and no other,
  -- with the id of the new key.
  pub fresh_key :
      find (has_key_hash (hash_token plain)) d.api_keys ≡ none
      → find (has_key_id uuid) d.api_keys ≡ none
      → is_some (find (has_user user) d.users) ≡ true
      → (d' : Db) × (d'' : Db) × (r : CreatedApiKey) × Returns
          (create_api_key hash_token uuid user label (some random))
          d
          r
          d'
        × Returns
            (authenticate_api_key hash_token r.plain_key)
            d'
            (record { user_id = user; key_id = uuid })
            d''
  unfolding create_api_key authenticate_api_key ApiKeys.create_api_key get_api_key_by_hash
      touch_api_key_last_used
  fresh_key free fresh there =
      let valid : is_valid_key (hash_token plain) row ≡ true =
        rw ((eq_iff (hash_token plain) (hash_token plain)).1 refl) refl in
      let got = find_last (hash_token plain) d.api_keys row free valid in
      let after = record with_key {
        api_keys = update_where (has_key_id uuid) (touched d.now) with_key.api_keys;
      } in
      (
        with_key,
        after,
        record { api_key = row; plain_key = plain },
        >>=-Returns _ _ d row with_key _ with_key
            (exec-Returns _ d row with_key (rw (free, fresh, there) refl))
            (pure-Returns _ with_key),
        >>=-Returns _ _ with_key row with_key _ after
            (λ c e k.
              let (c₁, p, q, clean) =
                exec-Returns (get_api_key_by_hash (hash_token plain)) with_key row with_key
                  (rw got refl) c e k in
              (c₁, rw p refl, q, clean))
            (>>=-Returns _ _ with_key tt after _ after (exec-Returns _ with_key tt after refl)
              (pure-Returns _ after)),
      )
