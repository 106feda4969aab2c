-- ===== src/Store/Session/Reuse.antt =====
-- What a refresh and a logout do when no other request runs between their statements.
use ping.Prelude.{
  ℕ, ◌≡◌, String, true, false, Option, none, some, List, [], ◌∷◌, find, update_where, ltb, ◌==◌,
  ==_iff, All, arith, is_some, is_none, if◌then◌else◌,
}
use ping.Schedule.{Instant}
use ping.Store.Session.{
  Token, Tokens, Phase, Input, invalid_refresh_token, refresh_reuse, rotate, log_out, granted,
  refused, is_live_in, has_hash, get_refresh_token_by_hash, revoke_refresh_token_family, examine,
  advance,
}

-- No id occurs twice.
abbrev pub IsDistinct : List Token → Type 0
IsDistinct [] = Unit
IsDistinct (t ∷ ts) = All (λ x. (t.id == x.id) ≡ false) ts × IsDistinct ts

-- The end that a refresh is owed, where `o` is the row of its token.
abbrev pub owed : Instant → Option Token → Phase
owed wall none = refused invalid_refresh_token
owed wall (some row) =
    if is_some row.revoked_at
    then refused invalid_refresh_token
    else if is_some row.rotated_at
    then refused refresh_reuse
    else if ltb row.expires_at wall
    then refused invalid_refresh_token
    else granted (some row.id) row.user_id row.family_id

abbrev pub IsRevoked : ℕ → Token → Type 0
IsRevoked family t = t.family_id ≡ family → is_none t.revoked_at ≡ false

IsRevoked-All :
    (family : ℕ) (now : Instant) (ts : List Token)
    → All
        (IsRevoked family)
        (update_where (is_live_in family) (λ t. record t { revoked_at = some now }) ts)
unfolding update_where
IsRevoked-All family now [] = tt
IsRevoked-All family now (t ∷ ts) =
    (λ e. ground (arith, (==_iff t.family_id family).1), IsRevoked-All family now ts)

module _ (hash_token : String → String) (i : Input) where
  -- Three statements of one request, with no other between them.
  abbrev pub alone : Phase → Tokens → Phase × Tokens
  alone p db =
      let (p₁, db₁) = advance hash_token i p db in
      let (p₂, db₂) = advance hash_token i p₁ db₁ in advance hash_token i p₂ db₂

  -- After the reuse of a rotated token that was not revoked, with no other request in between, and
  -- after a logout with a token of the table likewise, every token of its family is revoked.
  pub family-IsRevoked :
      (plain : String) (row : Token) (db : Tokens)
      → find (has_hash (hash_token plain)) db.rows ≡ some row
      → (is_some row.revoked_at ≡ false
          → is_some row.rotated_at ≡ true
          → All (IsRevoked row.family_id) (alone (rotate plain) db).1.rows)
        × All (IsRevoked row.family_id) (alone (log_out plain) db).1.rows
  unfolding advance get_refresh_token_by_hash examine revoke_refresh_token_family
  family-IsRevoked plain row db e = (
    λ r q. rw (e, r, q) (IsRevoked-All row.family_id db.now db.rows),
    rw e (IsRevoked-All row.family_id db.now db.rows),
  )
