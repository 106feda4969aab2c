-- ===== src/Store/Session/Examples.antt =====
-- Two requests that replay one token, and a logout in the middle of a refresh.
use ping.Prelude.{
  arith, is_none, ℕ, ◌≤◌, ◌≡◌, refl, String, Bool, true, false, Option, none, some, List, [], ◌∷◌,
  find, update_where, is_some, All,
}
use ping.Store.Session.{
  Token, Tokens, Phase, Input, rotate, log_out, granted, refused, refresh_reuse, logged_out,
  has_hash, interleave, advance_at, statement, advance, get_refresh_token_by_hash,
  rotate_refresh_token_if_unrotated, revoke_refresh_token_family, create_refresh_token, examine,
  after_mark,
}
use ping.Store.Session.Fairness.{winners}
use ping.Store.Session.Winners.{single_winner}
use ping.Store.Session.Reuse.{alone, IsRevoked, family-IsRevoked}

abbrev plain_hash : String → String
plain_hash s = s

abbrev login : Token
login = record {
  id = 1;
  user_id = 7;
  family_id = 40;
  token_hash = "first";
  expires_at = 900;
  rotated_at = none;
  revoked_at = none;
}

abbrev table : Tokens
table = record { rows = login ∷ []; next_id = 2; now = 100 }

abbrev input : Input
input = record { wall = 100; ttl = 500; random_token = "second"; fault = false }

-- Both read the token before one of them marks it.
abbrev turns : List (ℕ × Input)
turns = (0, input) ∷ (1, input) ∷ (1, input) ∷ (0, input) ∷ (1, input) ∷ (0, input) ∷ []

abbrev replays : List Phase
replays = rotate "first" ∷ rotate "first" ∷ []

single_winner_example : winners 1 (interleave plain_hash turns replays table).0 ≤ 1
single_winner_example = single_winner plain_hash 1 turns replays table (omega arith) refl

machine : Unit {0}
unfolding interleave advance_at statement advance examine after_mark get_refresh_token_by_hash
    rotate_refresh_token_if_unrotated revoke_refresh_token_family create_refresh_token find
    update_where
machine = tt

-- One is granted the next token, and the other takes the family down, the next token included.
one_granted :
    (interleave plain_hash turns replays table).0
    ≡ refused refresh_reuse ∷ granted (some 1) 7 40 ∷ []
unfolding machine
one_granted = refl

-- The logout revokes the family between the mark and the next token.
abbrev crossing : List (ℕ × Input)
crossing = (0, input) ∷ (0, input) ∷ (1, input) ∷ (1, input) ∷ (0, input) ∷ []

-- The refresh is granted all the same, and its token is not revoked.
survives_logout :
    (interleave plain_hash crossing (rotate "first" ∷ log_out "first" ∷ []) table).0
    ≡ granted (some 1) 7 40 ∷ logged_out ∷ []
unfolding machine
survives_logout = refl

abbrev is_live : Option Token → Bool
is_live none = false
is_live (some t) = is_none t.revoked_at

next_is_live :
    is_live (
      find
        (has_hash "second")
        (interleave plain_hash crossing (rotate "first" ∷ log_out "first" ∷ []) table).1.rows)
    ≡ true
unfolding machine
next_is_live = refl

found : find (has_hash "first") table.rows ≡ some login
unfolding find
found = refl

family-IsRevoked_example :
    (is_some login.revoked_at ≡ false
      → is_some login.rotated_at ≡ true
      → All (IsRevoked 40) (alone plain_hash input (rotate "first") table).1.rows)
    × All (IsRevoked 40) (alone plain_hash input (log_out "first") table).1.rows
family-IsRevoked_example = family-IsRevoked plain_hash input "first" login table found
