-- ===== src/Store/Steps.antt =====
-- What a successful operation says of its steps, whatever statements of the connection fail.
use ping.Prelude.{◌≡◌, refl, ap, Bool, true, false, inl, inr, Bool-cases, if◌then◌else◌, arith}
use ping.Db.{Db}
use ping.Db.Result.{Result, ok, err, no_rows}
use ping.Store.{
  Conn, Op, tick, continue_with, pure, ◌>>=◌, exec, query, change, close, settle, with_tx,
  of_result, rename, missing_as_not_found,
}

module _ {A : Type 0} where
  settle_value :
      (r : Result (A × Db)) (c c' : Conn) (a : A) → settle r c ≡ (ok a, c') → r ≡ ok (a, c'.db)
  settle_value (ok (b, db)) c c' a h = ground arith
  settle_value (err x) c c' a h = ground arith

  pub exec-ok :
      (f : Db → Result (A × Db)) (c c' : Conn) (a : A)
      → exec f c ≡ (ok a, c')
      → f c.db ≡ ok (a, c'.db)
  unfolding exec
  exec-ok f c c' a h = elim (Bool-cases (c.fault c.step)) [
    | inl bad ↦ ground arith
    | inr fine ↦ settle_value (f c.db) (tick c) c' a (rw fine at h)
  ]

  close_value :
      (old : Db) (r : Result A × Conn) (c' : Conn) (a : A)
      → close old r.0 r.1 ≡ (ok a, c')
      → (c₁ : Conn) × (r ≡ (ok a, c₁)) × (c'.db ≡ c₁.db)
  unfolding close
  close_value old (ok b, c) c' a h = (c, ground arith, ground arith)
  close_value old (err x, c) c' a h = (c, ground arith, ground arith)

  pub with_tx-ok :
      (m : Op A) (c c' : Conn) (a : A)
      → with_tx m c ≡ (ok a, c')
      → (c₁ : Conn) × (m (tick c) ≡ (ok a, c₁)) × (c'.db ≡ c₁.db)
  unfolding with_tx
  with_tx-ok m c c' a h = elim (Bool-cases (c.fault c.step)) [
    | inl bad ↦ absurd (ground arith)
    | inr fine ↦ close_value c.db (m (tick c)) c' a (rw fine at h)
  ]

  pub of_result-ok :
      (r : Result A) (c c' : Conn) (a : A) → of_result r c ≡ (ok a, c') → (r ≡ ok a) × (c' ≡ c)
  of_result-ok (ok b) c c' a h = ground arith
  of_result-ok (err e) c c' a h = ground arith

  rename_value :
      (r : Result A × Conn) (c' : Conn) (a : A)
      → ◌≡◌ {A = Result A × Conn} (rename r.0, r.1) (ok a, c')
      → r ≡ (ok a, c')
  rename_value (ok b, c) c' a h = h
  rename_value (err no_rows, c) c' a h = ground arith
  rename_value (err e, c) c' a h = ground arith

  pub missing_as_not_found-ok :
      (m : Op A) (c c' : Conn) (a : A) → missing_as_not_found m c ≡ (ok a, c') → m c ≡ (ok a, c')
  missing_as_not_found-ok m c c' a h = rename_value (m c) c' a h

module _ {A B : Type 0} where
  bind_value :
      (r : Result A × Conn) (f : A → Op B) (c' : Conn) (b : B)
      → continue_with r.0 f r.1 ≡ (ok b, c')
      → (a : A) × (c₁ : Conn) × (r ≡ (ok a, c₁)) × (f a c₁ ≡ (ok b, c'))
  bind_value (ok a, c₁) f c' b h = (a, c₁, refl, h)
  bind_value (err e, c₁) f c' b h = absurd (ground arith)

  pub >>=-ok :
      (m : Op A) (f : A → Op B) (c c' : Conn) (b : B)
      → (m >>= f) c ≡ (ok b, c')
      → (a : A) × (c₁ : Conn) × (m c ≡ (ok a, c₁)) × (f a c₁ ≡ (ok b, c'))
  unfolding ◌>>=◌
  >>=-ok m f c c' b h = bind_value (m c) f c' b h

pub change-ok :
    (f : Db → Db) (c c' : Conn) (u : Unit {0}) → change f c ≡ (ok u, c') → c'.db ≡ f c.db
change-ok f c c' u h = ground (arith, exec-ok (λ (db : Db). ok (tt, f db)) c c' u h)

-- What a successful run of an operation says of the tables before it, its value and the tables
-- after it.
pub record Ensures {A : Type 0} (m : Op A) (P : Db → A → Db → Type 0) : Type 0 where
  pub holds : (c c' : Conn) (a : A) → m c ≡ (ok a, c') → P c.db a c'.db

module _ {A : Type 0} where
  pub weaken :
      {m : Op A} {P Q : Db → A → Db → Type 0}
      → Ensures m P
      → ((d : Db) (a : A) (d' : Db) → P d a d' → Q d a d')
      → Ensures m Q
  weaken h f = record { holds = λ c c' a e. f c.db a c'.db (h.holds c c' a e) }

  pub pure-Ensures : (a : A) → Ensures (pure a) (λ d b d'. (b ≡ a) × (d' ≡ d))
  pure-Ensures a = record { holds = λ c c' b e. ground arith }

  pub exec-Ensures : (f : Db → Result (A × Db)) → Ensures (exec f) (λ d a d'. f d ≡ ok (a, d'))
  exec-Ensures f = record { holds = λ c c' a e. exec-ok f c c' a e }

  pub of_result-Ensures : (r : Result A) → Ensures (of_result r) (λ d a d'. (r ≡ ok a) × (d' ≡ d))
  of_result-Ensures r = record {
    holds = λ c c' a e. let (p, q) = of_result-ok r c c' a e in (p, ap (λ (x : Conn). x.db) q);
  }

  pub missing-Ensures :
      {m : Op A} {P : Db → A → Db → Type 0} → Ensures m P → Ensures (missing_as_not_found m) P
  missing-Ensures {m = m} h = record {
    holds = λ c c' a e. h.holds c c' a (missing_as_not_found-ok m c c' a e);
  }

  pub if-Ensures :
      (b : Bool) {m k : Op A} {P : Db → A → Db → Type 0}
      → (b ≡ true → Ensures m P)
      → (b ≡ false → Ensures k P)
      → Ensures (if b then m else k) P
  if-Ensures true p q = p refl
  if-Ensures false p q = q refl

  pub with_tx-Ensures : {m : Op A} {P : Db → A → Db → Type 0} → Ensures m P → Ensures (with_tx m) P
  with_tx-Ensures {m = m} {P = P} h = record {
    holds = λ c c' a e. let (c₁, p, q) = with_tx-ok m c c' a e in rw q (h.holds (tick c) c₁ a p);
  }

pub change-Ensures : (f : Db → Db) → Ensures (change f) (λ d u d'. d' ≡ f d)
change-Ensures f = record { holds = λ c c' u e. change-ok f c c' u e }

pub >>=-Ensures :
    {A B : Type 0} {m : Op A} {f : A → Op B} {P : Db → A → Db → Type 0}
    {Q : A → Db → B → Db → Type 0}
    → Ensures m P
    → ((a : A) → Ensures (f a) (Q a))
    → Ensures (m >>= f) (λ d b d'. (a : A) × (d₁ : Db) × P d a d₁ × Q a d₁ b d')
>>=-Ensures {m = m} {f = f} h k = record {
  holds = λ c c' b e.
      let (a, c₁, p, q) = >>=-ok m f c c' b e in
      (a, c₁.db, h.holds c c₁ a p, (k a).holds c₁ c' b q);
}

pub query-Ensures : {A : Type 0} (f : Db → A) → Ensures (query f) (λ d a d'. (a ≡ f d) × (d' ≡ d))
query-Ensures f = weaken (exec-Ensures (λ (db : Db). ok (f db, db))) (λ d a d' h. ground arith)
