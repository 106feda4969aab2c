-- ===== src/Server/Auth/Laws.antt =====
-- Who is let in.
use Prim.Native.String.{◌++◌}
use text.Mathlib.Text.{starts_with}
use ping.Prelude.{
  ℕ, ◌≡◌, refl, sym, ap, ◌∙◌, ◌⊎◌, inl, inr, String, true, false, Option, none, some, find,
  Bool-cases, arith,
}
use ping.Schedule.{Instant}
use ping.Db.{Db, ApiKey}
use ping.Db.Result.{Result, ok, err, no_rows}
use ping.Db.ApiKeys.{is_valid_key, found, get_api_key_by_hash}
use ping.Store.{Conn, Op}
use ping.Store.Steps.{Ensures, weaken, pure-Ensures, exec-Ensures, >>=-Ensures}
use ping.Store.RateLimit.{Redis, allow}
use ping.Store.ApiKeys.{AuthenticatedApiKey, refuse_key, missing_as_refused, authenticate_api_key}
use ping.Server.Auth.{
  passes, by_subject, by_key, by_token, with_token, bearer_token, require_auth_or_api_key,
  api_key_rate_limit, api_key_rate_window,
}

refused_value :
    (r : Result ApiKey × Conn) (c' : Conn) (k : ApiKey)
    → ◌≡◌ {A = Result ApiKey × Conn} (refuse_key r.0, r.1) (ok k, c')
    → r ≡ (ok k, c')
refused_value (ok j, c) c' k h = h
refused_value (err no_rows, c) c' k h = ground arith
refused_value (err e, c) c' k h = ground arith

found_key :
    (o : Option ApiKey) (d : Db) (k : ApiKey) (d' : Db) → found o d ≡ ok (k, d') → o ≡ some k
found_key none d k d' h = absurd (ground arith)
found_key (some x) d k d' h = ground arith

module _ (hash_token : String → String) where
  refused-Ensures :
      {m : Op ApiKey} {P : Db → ApiKey → Db → Type 0}
      → Ensures m P
      → Ensures (missing_as_refused m) P
  refused-Ensures {m = m} h = record {
    holds = λ c c' k e. h.holds c c' k (refused_value (m c) c' k e);
  }

  authenticate-Ensures :
      (plain : String)
      → Ensures (authenticate_api_key hash_token plain) (λ d a d'.
        (k : ApiKey) × (find (is_valid_key (hash_token plain)) d.api_keys ≡ some k)
        × (a.user_id ≡ k.user_id))
  unfolding authenticate_api_key get_api_key_by_hash
  authenticate-Ensures plain =
      weaken
        (>>=-Ensures (refused-Ensures (exec-Ensures (get_api_key_by_hash (hash_token plain))))
          (λ row. >>=-Ensures (exec-Ensures _) (λ u. pure-Ensures _)))
        (λ d a d' (row, d₁, q, (u, d₂, _, (e, _))). (
          row,
          found_key (find (is_valid_key (hash_token plain)) d.api_keys) d row d₁ q,
          ap (λ (x : AuthenticatedApiKey). x.user_id) e,
        ))

  -- The subject of a token, or the owner of a key that is not revoked.
  abbrev pub IsHolder : (String → Option ℕ) → Db → String → ℕ → Type 0
  IsHolder parse_access_token d token user =
      (starts_with token "pk_" ≡ false) × (parse_access_token token ≡ some user)
      ⊎ (starts_with token "pk_" ≡ true)
        × (k : ApiKey) × (find (is_valid_key (hash_token token)) d.api_keys ≡ some k)
        × (k.user_id ≡ user)

  subject_value : (o : Option ℕ) (user : ℕ) → by_subject o ≡ passes user → o ≡ some user
  subject_value none user h = absurd (ground arith)
  subject_value (some i) user h = ground arith

  module _ (parse_access_token : String → Option ℕ) (uuid_text : ℕ → String) (redis : Redis)
      (now : Instant) (s : redis.State) where
    key_value :
        (r : Result AuthenticatedApiKey) (c : Conn) (user : ℕ)
        → (by_key hash_token parse_access_token uuid_text redis now s (r, c)).0 ≡ passes user
        → (a : AuthenticatedApiKey) × (r ≡ ok a) × (a.user_id ≡ user)
    key_value (err e) c user h = absurd (ground arith)
    key_value (ok a) c user h =
        elim (Bool-cases
          (allow redis ("rate:apikey:" ++ uuid_text a.key_id) api_key_rate_limit api_key_rate_window
            now true s).0.allowed) [
              | inl e ↦ (a, refl, ground (arith, rw e at h))
              | inr e ↦ absurd (ground (arith, rw e at h))
            ]

    token_value :
        (token : String) (c : Conn) (user : ℕ)
        → (by_token hash_token parse_access_token uuid_text redis now s token c).0 ≡ passes user
        → IsHolder parse_access_token c.db token user
    token_value token c user h = elim (Bool-cases (starts_with token "pk_")) [
      | inr e ↦ inl (e, subject_value (parse_access_token token) user (rw e at h))
      | inl e ↦
          let r = authenticate_api_key hash_token token c in
          let (a, q, mine) = key_value r.0 r.1 user (rw e at h) in
          let (k, valid, owner) =
            (authenticate-Ensures token).holds c r.1 a
              (ap (λ (x : Result AuthenticatedApiKey). (x, r.1)) q) in
          inr (e, k, valid, sym owner ∙ mine)
    ]

    named :
        (o : Option String) (c : Conn) (user : ℕ)
        → (with_token hash_token parse_access_token uuid_text redis now s o c).0 ≡ passes user
        → (token : String) × (o ≡ some token) × IsHolder parse_access_token c.db token user
    named none c user h = absurd (ground arith)
    named (some token) c user h = (token, refl, token_value token c user h)

    -- A request that goes on as a user has a token: one that is no API key and is the access token
    -- of the user, or an API key of the user that is in the table and not revoked.
    pub passes_lem :
        (header : String) (c : Conn) (user : ℕ)
        → (require_auth_or_api_key hash_token parse_access_token uuid_text redis now s header c).0
          ≡ passes user
        → (token : String) × (bearer_token header ≡ some token)
          × IsHolder parse_access_token c.db token user
    unfolding require_auth_or_api_key
    passes_lem header c user h = named (bearer_token header) c user h
