-- ===== src/Store/Session/Fairness.antt =====
-- What a statement does to the right to win a token.
use mathlib.Core.Option.{none-ne-some}
use ping.Prelude.{
  ==_iff, ℕ, ◌+◌, ◌≤◌, ◌<◌, ◌≡◌, refl, ap, ◌∙◌, sym, ◌⊎◌, inl, inr, String, Bool, false, Option,
  none, some, List, [], ◌∷◌, find, update_where, ◌==◌, All, All-append, Bool-cases, arith,
  map_option, if◌then◌else◌,
}
use ping.Schedule.{Instant}
use ping.Store.Session.{
  Token, Tokens, Phase, issue, granted, is_open, rotated, is_live_in, revoke_refresh_token_family,
  create_refresh_token, after_mark,
}

abbrev one_if : Bool → ℕ
one_if b = if b then 1 else 0

abbrev pub from_token : ℕ → Option ℕ → ℕ
from_token j none = 0
from_token j (some i) = one_if (i == j)

-- Whether the request was let to follow this token up with a next one.
abbrev pub wins : ℕ → Phase → ℕ
wins j (issue source u f) = from_token j source
wins j (granted source u f) = from_token j source
wins j _ = 0

abbrev pub winners : ℕ → List Phase → ℕ
winners j [] = 0
winners j (p ∷ ps) = wins j p + winners j ps

abbrev pub IsSpent : ℕ → Tokens → Type 0
IsSpent j db = All (λ t. is_open j t ≡ false) db.rows

spent-find :
    (j : ℕ) (ts : List Token) → All (λ t. is_open j t ≡ false) ts → find (is_open j) ts ≡ none
unfolding find
spent-find j [] h = refl
spent-find j (t ∷ ts) (p, h) = rw p (spent-find j ts h)

-- After the UPDATE no row of this id is open.
spent-rotate :
    (j : ℕ) (now : Instant) (ts : List Token)
    → All (λ t. is_open j t ≡ false) (update_where (is_open j) (rotated now) ts)
unfolding update_where
spent-rotate j now [] = tt
spent-rotate j now (t ∷ ts) = (ground arith, spent-rotate j now ts)

kept-rotate :
    (j i : ℕ) (now : Instant) (ts : List Token)
    → All (λ t. is_open j t ≡ false) ts
    → All (λ t. is_open j t ≡ false) (update_where (is_open i) (rotated now) ts)
unfolding update_where
kept-rotate j i now [] h = tt
kept-rotate j i now (t ∷ ts) (p, h) = (ground arith, kept-rotate j i now ts h)

kept-revoke :
    (j f : ℕ) (now : Instant) (ts : List Token)
    → All (λ t. is_open j t ≡ false) ts
    → All
        (λ t. is_open j t ≡ false)
        (update_where (is_live_in f) (λ t. record t { revoked_at = some now }) ts)
unfolding update_where
kept-revoke j f now [] h = tt
kept-revoke j f now (t ∷ ts) (p, h) = (ground arith, kept-revoke j f now ts h)

found_id : (j : ℕ) (ts : List Token) (t : Token) → find (is_open j) ts ≡ some t → t.id ≡ j
unfolding find
found_id j [] t h = absurd (ground arith)
found_id j (x ∷ ts) t h = ground (arith, found_id j ts t)

-- What one or more statements do to the race for the token.
pub record Fair (j : ℕ) (db db' : Tokens) (before after : ℕ) : Type 0 where
  pub spent : j < db.next_id → IsSpent j db → IsSpent j db' × (after ≤ before)
  pub won : (after ≤ before) ⊎ (after ≤ before + 1) × IsSpent j db'
  pub known : j < db.next_id → j < db'.next_id

pub idle : (j : ℕ) (db : Tokens) (before after : ℕ) → after ≤ before → Fair j db db before after
idle j db before after h = record { spent = λ k s. (s, h); won = inl h; known = λ k. k }

unfoldable pub marked : ℕ → Tokens → Tokens
marked i db = record db { rows = update_where (is_open i) (rotated db.now) db.rows }

pub mark-Fair :
    (j i family : ℕ) (db : Tokens) (o : Option Token)
    → find (is_open i) db.rows ≡ o
    → Fair j db (marked i db) 0 (wins j (after_mark family (map_option (rotated db.now) o)))
unfolding after_mark marked
mark-Fair j i family db none e = record {
  spent = λ k s. (kept-rotate j i db.now db.rows s, omega arith);
  won = inl (omega arith);
  known = λ k. k;
}
mark-Fair j i family db (some t) e = elim (Bool-cases (t.id == j)) [
  | inl q ↦
      let same : i ≡ j = sym (found_id i db.rows t e) ∙ (==_iff t.id j).0 q in
      record {
        spent = λ k s. absurd (
            none-ne-some _
              (sym (spent-find j db.rows s) ∙ ap (λ n. find (is_open n) db.rows) (sym same) ∙ e));
        won = inr (rw q (omega arith), rw same (spent-rotate j db.now db.rows));
        known = λ k. k;
      }
  | inr q ↦ record {
    spent = λ k s. (kept-rotate j i db.now db.rows s, rw q (omega arith));
    won = inl (rw q (omega arith));
    known = λ k. k;
  }
]

pub create-Fair :
    (j user family wall : ℕ) (hash : String) (db : Tokens) (n : ℕ)
    → Fair j db (create_refresh_token user family hash wall db) n n
unfolding create_refresh_token
create-Fair j user family wall hash db n = record {
  spent =
      λ k s. (All-append (λ t. is_open j t ≡ false) db.rows _ s (ground arith, tt), omega arith);
  won = inl (omega arith);
  known = λ k. omega (arith, k);
}

pub revoke-Fair :
    (j family : ℕ) (db : Tokens) → Fair j db (revoke_refresh_token_family family db) 0 0
unfolding revoke_refresh_token_family
revoke-Fair j family db = record {
  spent = λ k s. (kept-revoke j family db.now db.rows s, omega arith);
  won = inl (omega arith);
  known = λ k. k;
}
