-- ===== src/Store/ApiKeys/Revoked.antt =====
-- A key that is revoked stays out.
use mathlib.Core.Path.{subst}
use text.Mathlib.Text.{◌==◌ as str_eq}
use text.Mathlib.TextEquality.{eq_iff}
use ping.Prelude.{
  ℕ, ◌≡◌, refl, sym, ap, ◌∙◌, ◌⊎◌, inl, inr, String, Bool, true, false, ◌&&◌, ◌||◌, Option, none,
  some, List, [], ◌∷◌, find, is_some, is_none, ◌==◌, All, All-append, All-update_where, Bool-cases,
  arith,
}
use ping.Db.{Db, ApiKey}
use ping.Db.Result.{ok, err, invalid_api_key, driver}
use ping.Db.ApiKeys
use ping.Db.ApiKeys.{
  has_key_hash, has_key_id, is_valid_key, is_revocable, revoked, touched, new_row, found,
  get_api_key_by_hash, touch_api_key_last_used,
}
use ping.Db.Edits.{has_user}
use ping.Store.{Conn, Op, ◌>>=◌, exec}
use ping.Store.Keeps.{Keeps, exec-Keeps, >>=-Keeps, if-Keeps}
use ping.Store.ApiKeys.{create_api_key, authenticate_api_key, revoke_api_key, missing_as_refused}
use ping.Store.ApiKeys.Found.{there-update, there-append, ok_db, left_false, same_tables}

-- A row with this hash that is not revoked.
abbrev pub is_live : String → ApiKey → Bool
is_live h k = has_key_hash h k && is_none k.revoked_at

-- A row with this hash is there, and each row with this hash is revoked.
pub record IsRevoked (h : String) (d : Db) : Type 0 where
  pub there : is_some (find (has_key_hash h) d.api_keys) ≡ true
  pub spent : All (λ k. is_live h k ≡ false) d.api_keys

module _ (h : String) where
  revoked_spent : (now : ℕ) (k : ApiKey) → is_live h k ≡ false → is_live h (revoked now k) ≡ false
  revoked_spent now k e = ground arith

  -- A hash that a row has is not given out again.
  other :
      (uuid user : ℕ) (hash label : String) (d : Db)
      → (is_some (find (has_key_hash hash) d.api_keys)
          || is_some (find (has_key_id uuid) d.api_keys))
        ≡ false
      → IsRevoked h d
      → is_live h (new_row uuid user hash label d.now) ≡ false
  other uuid user hash label d a o = elim (Bool-cases (str_eq hash h)) [
    | inr e ↦ rw e refl
    | inl e ↦
        let taken : is_some (find (has_key_hash hash) d.api_keys) ≡ true =
          ap (λ x. is_some (find (has_key_hash x) d.api_keys)) ((eq_iff hash h).0 e) ∙ o.there in
        absurd (ground (arith, sym taken ∙ left_false _ _ a))
  ]

  create_kept :
      (uuid user : ℕ) (hash label : String) (d : Db) (k : ApiKey) (d' : Db)
      → ApiKeys.create_api_key uuid user hash label d ≡ ok (k, d')
      → IsRevoked h d
      → IsRevoked h d'
  unfolding ApiKeys.create_api_key
  create_kept uuid user hash label d k d' q o =
      elim (Bool-cases (
        is_some (find (has_key_hash hash) d.api_keys)
        || is_some (find (has_key_id uuid) d.api_keys))) [
          | inl a ↦ absurd (ground (arith, rw a at q))
          | inr a ↦ elim (Bool-cases (is_some (find (has_user user) d.users))) [
            | inr b ↦ absurd (ground (arith, rw (a, b) at q))
            | inl b ↦ subst (IsRevoked h) (ok_db (rw (a, b) at q)) (record {
              there = there-append h d.api_keys (new_row uuid user hash label d.now) o.there;
              spent =
                  All-append (λ k. is_live h k ≡ false) d.api_keys _ o.spent
                    (other uuid user hash label d a o, tt);
            })
          ]
        ]

  revoke_kept :
      (i user : ℕ) (d : Db) (n : ℕ) (d' : Db)
      → ApiKeys.revoke_api_key i user d ≡ ok (n, d')
      → IsRevoked h d
      → IsRevoked h d'
  unfolding ApiKeys.revoke_api_key
  revoke_kept i user d n d' q o = subst (IsRevoked h) (ok_db q) (record {
    there = there-update h (is_revocable i user) (revoked d.now) (λ k. refl) d.api_keys ∙ o.there;
    spent =
        All-update_where (λ k. is_live h k ≡ false) (is_revocable i user) (revoked d.now)
          (revoked_spent d.now) d.api_keys o.spent;
  })

  touch_kept :
      (i : ℕ) (d : Db) (u : Unit {0}) (d' : Db)
      → touch_api_key_last_used i d ≡ ok (u, d')
      → IsRevoked h d
      → IsRevoked h d'
  unfolding touch_api_key_last_used
  touch_kept i d u d' q o = subst (IsRevoked h) (ok_db q) (record {
    there = there-update h (has_key_id i) (touched d.now) (λ k. refl) d.api_keys ∙ o.there;
    spent =
        All-update_where (λ k. is_live h k ≡ false) (has_key_id i) (touched d.now) (λ k e. e)
          d.api_keys o.spent;
  })

  module _ (hash_token : String → String) where
    create-Keeps :
        (uuid user : ℕ) (label : String) (random : Option String)
        → Keeps (IsRevoked h) (create_api_key hash_token uuid user label random)
    unfolding create_api_key
    create-Keeps uuid user label none = λ c p. p
    create-Keeps uuid user label (some random) =
        >>=-Keeps (IsRevoked h) _ _
          (exec-Keeps (IsRevoked h) _ (λ d k d' q o. create_kept uuid user _ label d k d' q o))
          (λ row c p. p)

    revoke-Keeps : (i user : ℕ) → Keeps (IsRevoked h) (revoke_api_key i user)
    unfolding revoke_api_key
    revoke-Keeps i user =
        >>=-Keeps (IsRevoked h) _ _
          (exec-Keeps (IsRevoked h) _ (λ d n d' q o. revoke_kept i user d n d' q o))
          (λ n. if-Keeps (IsRevoked h) (n == 0) _ _ (λ c p. p) (λ c p. p))

    refused-Keeps :
        (m : Op ApiKey) → Keeps (IsRevoked h) m → Keeps (IsRevoked h) (missing_as_refused m)
    refused-Keeps m k c p = k c p

    found_same :
        (x : String) (d : Db) (k : ApiKey) (d' : Db) → get_api_key_by_hash x d ≡ ok (k, d') → d ≡ d'
    unfolding get_api_key_by_hash
    found_same x d k d' q = same_tables (find (is_valid_key x) d.api_keys) d k d' q

    authenticate-Keeps :
        (plain : String) → Keeps (IsRevoked h) (authenticate_api_key hash_token plain)
    unfolding authenticate_api_key get_api_key_by_hash
    authenticate-Keeps plain =
        >>=-Keeps (IsRevoked h) _ _
          (refused-Keeps (exec (get_api_key_by_hash (hash_token plain))) (
            exec-Keeps (IsRevoked h) _
              (λ d k d' q o. subst (IsRevoked h) (found_same (hash_token plain) d k d' q) o)))
          (λ row.
            >>=-Keeps (IsRevoked h) _ _
              (exec-Keeps (IsRevoked h) _ (λ d u d' q o. touch_kept row.id d u d' q o))
              (λ u c p. p))

-- What is done with keys, each with the statements that fail in it.
pub data KeyOperation : Type 0 where
  create_key : ℕ → ℕ → String → Option String → KeyOperation
  revoke_key : ℕ → ℕ → KeyOperation
  authenticate_key : String → KeyOperation

module _ (hash_token : String → String) where
  abbrev pub done : KeyOperation → Conn → Db
  done (create_key uuid user label random) c =
      (create_api_key hash_token uuid user label random c).1.db
  done (revoke_key i user) c = (revoke_api_key i user c).1.db
  done (authenticate_key plain) c = (authenticate_api_key hash_token plain c).1.db

  pub key_history : List (KeyOperation × (ℕ → Bool)) → Db → Db
  key_history [] db = db
  key_history ((o, fault) ∷ os) db =
      key_history os (done o (record { db = db; fault = fault; step = 0 }))

  done_kept : (h : String) (o : KeyOperation) (c : Conn) → IsRevoked h c.db → IsRevoked h (done o c)
  done_kept h (create_key uuid user label random) c p =
      create-Keeps h hash_token uuid user label random c p
  done_kept h (revoke_key i user) c p = revoke-Keeps h hash_token i user c p
  done_kept h (authenticate_key plain) c p = authenticate-Keeps h hash_token plain c p

  history_kept :
      (h : String) (os : List (KeyOperation × (ℕ → Bool))) (db : Db)
      → IsRevoked h db
      → IsRevoked h (key_history os db)
  unfolding key_history
  history_kept h [] db p = p
  history_kept h ((o, fault) ∷ os) db p =
      history_kept h os (done o (record { db = db; fault = fault; step = 0 }))
        (done_kept h o (record { db = db; fault = fault; step = 0 }) p)

  nothing_valid :
      (x : String) (ks : List ApiKey)
      → All (λ k. is_live x k ≡ false) ks
      → find (is_valid_key x) ks ≡ none
  unfolding find
  nothing_valid x [] h = refl
  nothing_valid x (k ∷ ks) (e, h) = rw e (nothing_valid x ks h)

  -- Where a row has the hash of a key and each row with this hash is revoked, the key is refused
  -- after whatever is done with keys, and whatever statements fail.
  pub revoked_rests :
      (plain : String) (os : List (KeyOperation × (ℕ → Bool))) (db : Db) (c : Conn)
      → IsRevoked (hash_token plain) db
      → c.db ≡ key_history os db
      → ((authenticate_api_key hash_token plain c).0 ≡ err invalid_api_key)
        ⊎ ((authenticate_api_key hash_token plain c).0 ≡ err driver)
  unfolding authenticate_api_key ◌>>=◌ exec get_api_key_by_hash
  revoked_rests plain os db c p e =
      let later = history_kept (hash_token plain) os db p in
      let none_valid : find (is_valid_key (hash_token plain)) c.db.api_keys ≡ none =
        ap (λ (d : Db). find (is_valid_key (hash_token plain)) d.api_keys) e
        ∙ nothing_valid (hash_token plain) _ later.spent in
      elim (Bool-cases (c.fault c.step)) [
        | inl bad ↦ inr (rw bad refl)
        | inr fine ↦ inl (rw (fine, none_valid) refl)
      ]
