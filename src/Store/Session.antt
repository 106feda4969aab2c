-- ===== src/Store/Session.antt =====
-- backend/store/session.go and db/refresh_tokens.sql.go: the refresh tokens. The requests are in no
-- transaction, so each is a machine that makes one statement at a step, and the statements of
-- several requests interleave. SHA-256 with its hexadecimal text is the parameter `hash_token`.
pub mod Fairness
pub mod Winners
pub mod Reuse
mod Examples
use text.Mathlib.Text.{◌==◌ as str_eq}
use ping.Prelude.{
  ℕ, zero, suc, ◌+◌, String, Bool, true, false, ◌&&◌, Option, none, some, List, [], ◌∷◌, ◌++◌, ltb,
  ◌==◌, find, update_where, is_some, is_none, map_option, not, if◌then◌else◌,
}
use ping.Schedule.{Instant}

pub record Token : Type 0 where
  pub id : ℕ
  pub user_id : ℕ
  pub family_id : ℕ
  pub token_hash : String
  pub expires_at : Instant
  pub rotated_at : Option Instant
  pub revoked_at : Option Instant

-- The table, the next id, and SQL's now().
pub record Tokens : Type 0 where
  pub rows : List Token
  pub next_id : ℕ
  pub now : Instant

abbrev pub has_hash : String → Token → Bool
has_hash hash t = str_eq t.token_hash hash

unfoldable pub get_refresh_token_by_hash : String → Tokens → Option Token
get_refresh_token_by_hash hash db = find (has_hash hash) db.rows

abbrev pub is_open : ℕ → Token → Bool
is_open i t = t.id == i && is_none t.rotated_at && is_none t.revoked_at

abbrev pub rotated : Instant → Token → Token
rotated now t = record t { rotated_at = some now }

-- The row as the UPDATE leaves it, if there was one to update.
unfoldable pub rotate_refresh_token_if_unrotated : ℕ → Tokens → Option Token × Tokens
rotate_refresh_token_if_unrotated i db = (
  map_option (rotated db.now) (find (is_open i) db.rows),
  record db { rows = update_where (is_open i) (rotated db.now) db.rows },
)

abbrev pub is_live_in : ℕ → Token → Bool
is_live_in family t = t.family_id == family && is_none t.revoked_at

unfoldable pub revoke_refresh_token_family : ℕ → Tokens → Tokens
revoke_refresh_token_family family db = record db {
  rows = update_where (is_live_in family) (λ t. record t { revoked_at = some db.now }) db.rows;
}

unfoldable pub create_refresh_token : ℕ → ℕ → String → Instant → Tokens → Tokens
create_refresh_token user_id family_id token_hash expires_at db =
    let row : Token = record {
      id = db.next_id;
      user_id = user_id;
      family_id = family_id;
      token_hash = token_hash;
      expires_at = expires_at;
      rotated_at = none;
      revoked_at = none;
    } in
    record db { rows = db.rows ++ row ∷ []; next_id = db.next_id + 1 }

pub data Refusal : Type 0 where
  invalid_refresh_token : Refusal
  refresh_reuse : Refusal
  driver : Refusal

-- Where a request stands. RotateRefreshToken starts as `rotate`, RevokeFamilyByToken as `log_out`
-- and IssueRefreshToken as `issue` with no token that it comes from; `revoke` ends with a refusal,
-- or with the success of a logout.
pub data Phase : Type 0 where
  rotate : String → Phase
  mark : Token → Phase
  issue : Option ℕ → ℕ → ℕ → Phase
  log_out : String → Phase
  revoke : ℕ → Option Refusal → Phase
  granted : Option ℕ → ℕ → ℕ → Phase
  refused : Refusal → Phase
  logged_out : Phase

-- What a step reads beside the table: time.Now(), the lifetime, the random token, and whether the
-- driver fails.
pub record Input : Type 0 where
  pub wall : Instant
  pub ttl : ℕ
  pub random_token : String
  pub fault : Bool

abbrev pub ended : Option Refusal → Phase
ended none = logged_out
ended (some r) = refused r

-- The switch on the row that was read.
unfoldable pub examine : Instant → Option Token → Phase
examine wall none = refused invalid_refresh_token
examine wall (some row) =
    if is_some row.revoked_at
    then refused invalid_refresh_token
    else if is_some row.rotated_at
    then revoke row.family_id (some refresh_reuse)
    else if ltb row.expires_at wall
    then refused invalid_refresh_token
    else mark row

-- After the conditional UPDATE: the next token, or a lost race.
unfoldable pub after_mark : ℕ → Option Token → Phase
after_mark family none = revoke family (some refresh_reuse)
after_mark family (some row) = issue (some row.id) row.user_id row.family_id

abbrev pub leave : Option Token → Phase
leave none = logged_out
leave (some row) = revoke row.family_id none

-- A request that makes no statement any more.
abbrev pub is_done : Phase → Bool
is_done (granted _ _ _) = true
is_done (refused _) = true
is_done logged_out = true
is_done _ = false

module _ (hash_token : String → String) where
  -- One statement of a request.
  unfoldable pub advance : Input → Phase → Tokens → Phase × Tokens
  unfolding examine after_mark
  advance i (rotate plain) db =
      (examine i.wall (get_refresh_token_by_hash (hash_token plain) db), db)
  advance i (mark row) db =
      let (updated, db') = rotate_refresh_token_if_unrotated row.id db in
      (after_mark row.family_id updated, db')
  advance i (issue source user family) db = (
    granted source user family,
    create_refresh_token user family (hash_token i.random_token) (i.wall + i.ttl) db,
  )
  advance i (log_out plain) db = (leave (get_refresh_token_by_hash (hash_token plain) db), db)
  advance i (revoke family end) db = (ended end, revoke_refresh_token_family family db)
  advance i (granted source user family) db = (granted source user family, db)
  advance i (refused r) db = (refused r, db)
  advance i logged_out db = (logged_out, db)

  -- A statement that fails for the driver's reason ends the request.
  unfoldable pub statement : Input → Phase → Tokens → Phase × Tokens
  unfolding advance
  statement i p db = if i.fault && not (is_done p) then (refused driver, db) else advance i p db

  -- The k-th request makes a statement.
  unfoldable pub advance_at : ℕ → Input → List Phase → Tokens → List Phase × Tokens
  advance_at k i [] db = ([], db)
  advance_at zero i (p ∷ ps) db = let (p', db') = statement i p db in (p' ∷ ps, db')
  advance_at (suc k) i (p ∷ ps) db = let (ps', db') = advance_at k i ps db in (p ∷ ps', db')

  -- An interleaving: which request makes a statement, one after the other.
  unfoldable pub interleave : List (ℕ × Input) → List Phase → Tokens → List Phase × Tokens
  interleave [] ps db = (ps, db)
  interleave ((k, i) ∷ turns) ps db =
      let (ps', db') = advance_at k i ps db in interleave turns ps' db'
