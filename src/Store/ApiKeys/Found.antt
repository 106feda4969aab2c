-- ===== src/Store/ApiKeys/Found.antt =====
-- What a key update leaves of the rows, and what a lookup leaves of the tables.
use text.Mathlib.Text.{◌==◌ as str_eq}
use ping.Prelude.{
  ◌≡◌, refl, ap, inl, inr, String, Bool, true, false, ◌||◌, Option, none, some, List, [], ◌∷◌, ◌++◌,
  find, update_where, is_some, Bool-cases, if◌then◌else◌, arith,
}
use ping.Db.{Db, ApiKey}
use ping.Db.Result.{Result, ok}
use ping.Db.ApiKeys.{has_key_hash, found}

kept_hash :
    (b : Bool) (f : ApiKey → ApiKey)
    → ((k : ApiKey) → (f k).key_hash ≡ k.key_hash)
    → (k : ApiKey) → (if b then f k else k).key_hash ≡ k.key_hash
kept_hash true f same k = same k
kept_hash false f same k = refl

pub there-update :
    (h : String) (p : ApiKey → Bool) (f : ApiKey → ApiKey)
    → ((k : ApiKey) → (f k).key_hash ≡ k.key_hash)
    → (ks : List ApiKey)
    → is_some (find (has_key_hash h) (update_where p f ks)) ≡ is_some (find (has_key_hash h) ks)
unfolding find update_where
there-update h p f same [] = refl
there-update h p f same (k ∷ ks) =
    let hash : has_key_hash h (if p k then f k else k) ≡ has_key_hash h k =
      ap (λ x. str_eq x h) (kept_hash (p k) f same k) in
    elim (Bool-cases (has_key_hash h k)) [
      | inl e ↦ rw (hash, e) refl
      | inr e ↦ rw (hash, e) (there-update h p f same ks)
    ]

pub there-append :
    (h : String) (ks : List ApiKey) (k : ApiKey)
    → is_some (find (has_key_hash h) ks) ≡ true
    → is_some (find (has_key_hash h) (ks ++ k ∷ [])) ≡ true
unfolding find
there-append h [] k e = absurd (ground arith)
there-append h (j ∷ ks) k e = elim (Bool-cases (has_key_hash h j)) [
  | inl q ↦ rw q refl
  | inr q ↦ rw q (there-append h ks k (rw q at e))
]

pub ok_db :
    {A : Type 0} {a b : A} {d d' : Db} → ◌≡◌ {A = Result (A × Db)} (ok (a, d)) (ok (b, d')) → d ≡ d'
ok_db h = ground arith

pub left_false : (a b : Bool) → (a || b) ≡ false → a ≡ false
left_false false b h = refl
left_false true b h = absurd (ground arith)

pub same_tables :
    (o : Option ApiKey) (d : Db) (k : ApiKey) (d' : Db) → found o d ≡ ok (k, d') → d ≡ d'
same_tables none d k d' q = absurd (ground arith)
same_tables (some x) d k d' q = ok_db q
