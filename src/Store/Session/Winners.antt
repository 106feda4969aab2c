-- ===== src/Store/Session/Winners.antt =====
-- Requests that race for one refresh token.
use ping.Prelude.{
  ℕ, zero, suc, ◌+◌, ◌≤◌, ◌<◌, ◌≡◌, refl, ◌&&◌, ◌⊎◌, inl, inr, String, Bool, true, false, Option,
  none, some, List, [], ◌∷◌, find, arith, not, if◌then◌else◌,
}
use ping.Store.Session.{
  Token, Tokens, Phase, Input, Refusal, rotate, mark, issue, log_out, revoke, granted, refused,
  logged_out, leave, ended, is_open, is_done, get_refresh_token_by_hash,
  rotate_refresh_token_if_unrotated, examine, advance, statement, advance_at, interleave,
}
use ping.Store.Session.Fairness.{
  from_token, wins, winners, IsSpent, Fair, idle, marked, mark-Fair, create-Fair, revoke-Fair,
}

examine_lem : (j wall : ℕ) (o : Option Token) → wins j (examine wall o) ≡ 0
unfolding examine
examine_lem j wall none = refl
examine_lem j wall (some t) = ground arith

leave_lem : (j : ℕ) (o : Option Token) → wins j (leave o) ≡ 0
leave_lem j none = refl
leave_lem j (some t) = refl

ended_lem : (j : ℕ) (o : Option Refusal) → wins j (ended o) ≡ 0
ended_lem j none = refl
ended_lem j (some r) = refl

module _ (hash_token : String → String) where
  advance-Fair :
      (j : ℕ) (i : Input) (p : Phase) (db : Tokens)
      → let r = advance hash_token i p db in Fair j db r.1 (wins j p) (wins j r.0)
  unfolding advance rotate_refresh_token_if_unrotated marked
  advance-Fair j i (rotate plain) db =
      idle j db _ _
        (omega (arith, examine_lem j i.wall (get_refresh_token_by_hash (hash_token plain) db)))
  advance-Fair j i (mark row) db =
      mark-Fair j row.id row.family_id db (find (is_open row.id) db.rows) refl
  advance-Fair j i (issue source user family) db =
      create-Fair j user family (i.wall + i.ttl) (hash_token i.random_token) db
        (from_token j source)
  advance-Fair j i (log_out plain) db =
      idle j db _ _ (omega (arith, leave_lem j (get_refresh_token_by_hash (hash_token plain) db)))
  advance-Fair j i (revoke family end) db = rw (ended_lem j end) (revoke-Fair j family db)
  advance-Fair j i (granted source user family) db = idle j db _ _ (omega arith)
  advance-Fair j i (refused r) db = idle j db _ _ (omega arith)
  advance-Fair j i logged_out db = idle j db _ _ (omega arith)

  either-Fair :
      (j : ℕ) (db : Tokens) (n : ℕ) (b : Bool) (r r' : Phase × Tokens)
      → Fair j db r.1 n (wins j r.0)
      → Fair j db r'.1 n (wins j r'.0)
      → let x = if b then r else r' in Fair j db x.1 n (wins j x.0)
  either-Fair j db n true r r' h h' = h
  either-Fair j db n false r r' h h' = h'

  statement-Fair :
      (j : ℕ) (i : Input) (p : Phase) (db : Tokens)
      → let r = statement hash_token i p db in Fair j db r.1 (wins j p) (wins j r.0)
  unfolding statement
  statement-Fair j i p db =
      either-Fair j db (wins j p) (i.fault && not (is_done p)) _ _ (idle j db _ _ (omega arith))
        (advance-Fair j i p db)

  more : (j : ℕ) (db db' : Tokens) (a b n : ℕ) → Fair j db db' a b → Fair j db db' (a + n) (b + n)
  more j db db' a b n f = record {
    spent = λ k s. let (t, l) = f.spent k s in (t, omega (arith, l));
    won = elim f.won [ inl l ↦ inl (omega (arith, l)) | inr (l, t) ↦ inr (omega (arith, l), t) ];
    known = f.known;
  }

  before : (j : ℕ) (db db' : Tokens) (a b n : ℕ) → Fair j db db' a b → Fair j db db' (n + a) (n + b)
  before j db db' a b n f = record {
    spent = λ k s. let (t, l) = f.spent k s in (t, omega (arith, l));
    won = elim f.won [ inl l ↦ inl (omega (arith, l)) | inr (l, t) ↦ inr (omega (arith, l), t) ];
    known = f.known;
  }

  advance_at-Fair :
      (j k : ℕ) (i : Input) (ps : List Phase) (db : Tokens)
      → let r = advance_at hash_token k i ps db in Fair j db r.1 (winners j ps) (winners j r.0)
  unfolding advance_at
  advance_at-Fair j k i [] db = idle j db 0 0 (omega arith)
  advance_at-Fair j zero i (p ∷ ps) db = more j db _ _ _ (winners j ps) (statement-Fair j i p db)
  advance_at-Fair j (suc k) i (p ∷ ps) db =
      before j db _ _ _ (wins j p) (advance_at-Fair j k i ps db)

  abbrev IsRace : ℕ → List Phase → Tokens → Type 0
  IsRace j ps db = (j < db.next_id) × ((winners j ps ≡ 0) ⊎ (winners j ps ≤ 1) × IsSpent j db)

  IsRace-step :
      (j : ℕ) (db db' : Tokens) (ps ps' : List Phase)
      → Fair j db db' (winners j ps) (winners j ps')
      → IsRace j ps db
      → IsRace j ps' db'
  IsRace-step j db db' ps ps' f (k, inl z) = (
    f.known k,
    elim f.won [ inl l ↦ inl (omega (arith, l, z)) | inr (l, t) ↦ inr (omega (arith, l, z), t) ],
  )
  IsRace-step j db db' ps ps' f (k, inr (l, s)) =
      let (t, m) = f.spent k s in (f.known k, inr (omega (arith, l, m), t))

  IsRace-interleave :
      (j : ℕ) (turns : List (ℕ × Input)) (ps : List Phase) (db : Tokens)
      → IsRace j ps db
      → let r = interleave hash_token turns ps db in IsRace j r.0 r.1
  unfolding interleave
  IsRace-interleave j [] ps db h = h
  IsRace-interleave j ((k, i) ∷ turns) ps db h =
      let r = advance_at hash_token k i ps db in
      IsRace-interleave j turns r.0 r.1
        (IsRace-step j db r.1 ps r.0 (advance_at-Fair j k i ps db) h)

  -- Whatever requests race for a token whose id was given out already, in whatever order their statements
  -- run and whichever of these fail: if none was let to follow the token up before, at most one is.
  pub single_winner :
      (j : ℕ) (turns : List (ℕ × Input)) (ps : List Phase) (db : Tokens)
      → j < db.next_id
      → winners j ps ≡ 0
      → winners j (interleave hash_token turns ps db).0 ≤ 1
  single_winner j turns ps db k z = elim (IsRace-interleave j turns ps db (k, inl z)).1 [
    | inl e ↦ omega (arith, e)
    | inr (l, s) ↦ l
  ]
