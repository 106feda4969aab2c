-- ===== src/Store/Keeps.antt =====
-- What every statement of an operation keeps holds after the operation, whatever statements fail.
use ping.Prelude.{◌≡◌, refl, Bool, true, false, inl, inr, Bool-cases, if◌then◌else◌}
use ping.Db.{Db}
use ping.Db.Result.{Result, ok, err, Error}
use ping.Store.{
  Conn, Op, tick, pure, fail_with, continue_with, ◌>>=◌, exec, settle, with_tx, close,
  missing_as_not_found,
}

abbrev pub Keeps : {A : Type 0} → (Db → Type 0) → Op A → Type 0
Keeps P m = (c : Conn) → P c.db → P (m c).1.db

module _ (P : Db → Type 0) where
  pub pure-Keeps : {A : Type 0} (a : A) → Keeps P (pure a)
  pure-Keeps a c p = p

  pub fail_with-Keeps : (A : Type 0) (e : Error) → Keeps P (fail_with {A = A} e)
  fail_with-Keeps A e c p = p

  settled :
      {A : Type 0} (r : Result (A × Db)) (c : Conn)
      → ((a : A) (d : Db) → r ≡ ok (a, d) → P d)
      → P c.db
      → P (settle r c).1.db
  settled (ok (a, d)) c h p = h a d refl
  settled (err e) c h p = p

  pub exec-Keeps :
      {A : Type 0} (f : Db → Result (A × Db))
      → ((d : Db) (a : A) (d' : Db) → f d ≡ ok (a, d') → P d → P d')
      → Keeps P (exec f)
  unfolding exec
  exec-Keeps f h c p = elim (Bool-cases (c.fault c.step)) [
    | inl bad ↦ rw bad p
    | inr fine ↦ rw fine (settled (f c.db) (tick c) (λ a d e. h c.db a d e p) p)
  ]

  continued :
      {A B : Type 0} (f : A → Op B) (r : Result A × Conn)
      → ((a : A) → Keeps P (f a))
      → P r.1.db
      → P (continue_with r.0 f r.1).1.db
  continued f (ok a, c) h p = h a c p
  continued f (err e, c) h p = p

  pub >>=-Keeps :
      {A B : Type 0} (m : Op A) (f : A → Op B)
      → Keeps P m
      → ((a : A) → Keeps P (f a))
      → Keeps P (m >>= f)
  unfolding ◌>>=◌
  >>=-Keeps m f h k c p = continued f (m c) k (h c p)

  pub missing-Keeps : {A : Type 0} (m : Op A) → Keeps P m → Keeps P (missing_as_not_found m)
  missing-Keeps m h c p = h c p

  pub if-Keeps :
      {A : Type 0} (b : Bool) (m k : Op A) → Keeps P m → Keeps P k → Keeps P (if b then m else k)
  if-Keeps true m k h j = h
  if-Keeps false m k h j = j

  closed :
      {A : Type 0} (old : Db) (r : Result A) (c : Conn) → P old → P c.db → P (close old r c).1.db
  unfolding close
  closed old (ok a) c p q = elim (Bool-cases (c.fault c.step)) [
    | inl bad ↦ rw bad p
    | inr fine ↦ rw fine q
  ]
  closed old (err e) c p q = p

  pub with_tx-Keeps : {A : Type 0} (m : Op A) → Keeps P m → Keeps P (with_tx m)
  unfolding with_tx
  with_tx-Keeps m h c p = elim (Bool-cases (c.fault c.step)) [
    | inl bad ↦ rw bad p
    | inr fine ↦ rw fine (closed c.db (m (tick c)).0 (m (tick c)).1 p (h (tick c) p))
  ]
