-- ===== src/Store/Tx.antt =====
-- What a failing driver can and cannot do to an operation.
use mathlib.Core.Path.{subst}
use ping.Prelude.{
  ap, sym, ◌∙◌, Bool, true, if◌then◌else◌, ℕ, ◌≡◌, refl, ◌⊎◌, inl, inr, false, arith, Bool-cases,
}
use ping.Db.{Db}
use ping.Db.Result.{Result, ok, err, Error, driver}
use ping.Store.Steps.{Ensures}
use ping.Store.{
  change, query, Conn, Op, tick, pure, fail_with, continue_with, ◌>>=◌, exec, with_tx, calm, run,
  of_result, rename, missing_as_not_found,
}

abbrev pub Clean : Conn → Type 0
Clean c = (n : ℕ) → c.fault n ≡ false

-- On the tables of a connection without faults the operation does the same, or the driver fails.
pub data Agree {A : Type 0} (r r₀ : Result A × Conn) : Type 0 where
  broken : r.0 ≡ err driver → Agree r r₀
  same : r.0 ≡ r₀.0 → r.1.db ≡ r₀.1.db → Clean r₀.1 → Agree r r₀

pub record Faithful {A : Type 0} (m : Op A) : Type 0 where
  pub agree : (c c₀ : Conn) → c.db ≡ c₀.db → Clean c₀ → Agree (m c) (m c₀)

pub pure-Faithful : {A : Type 0} (a : A) → Faithful (pure a)
pure-Faithful a = record { agree = λ c c₀ e k. same refl e k }

pub fail_with-Faithful : {A : Type 0} (e : Error) → Faithful (fail_with {A = A} e)
fail_with-Faithful e = record { agree = λ c c₀ h k. same refl h k }

exec-Agree :
    {A : Type 0} (f : Db → Result (A × Db)) (r : Result (A × Db)) (c c₀ : Conn)
    → c.db ≡ c₀.db
    → f c₀.db ≡ r
    → Clean c₀
    → Agree (exec f c) (exec f c₀)
unfolding exec
exec-Agree f (ok (a, db)) c c₀ e q k = elim (Bool-cases (c.fault c.step)) [
  | inl bad ↦ broken (rw bad)
  | inr fine ↦ rw (fine, k c₀.step, e, q) (same refl refl k)
]
exec-Agree f (err x) c c₀ e q k = elim (Bool-cases (c.fault c.step)) [
  | inl bad ↦ broken (rw bad)
  | inr fine ↦ rw (fine, k c₀.step, e, q) (same refl refl k)
]

pub exec-Faithful : {A : Type 0} (f : Db → Result (A × Db)) → Faithful (exec f)
exec-Faithful f = record { agree = λ c c₀ e k. exec-Agree f (f c₀.db) c c₀ e refl k }

bind-Agree :
    {A B : Type 0} (f : A → Op B)
    → ((a : A) → Faithful (f a))
    → (r r₀ : Result A × Conn) (v : Result A) → r₀.0 ≡ v
    → Agree r r₀
    → Agree (continue_with r.0 f r.1) (continue_with r₀.0 f r₀.1)
bind-Agree f fs r r₀ v e (broken b) = rw b (broken refl)
bind-Agree f fs r r₀ (ok a) e (same p q k) = rw (p, e) ((fs a).agree r.1 r₀.1 q k)
bind-Agree f fs r r₀ (err x) e (same p q k) = rw (p, e) (same refl q k)

pub >>=-Faithful :
    {A B : Type 0} {m : Op A} {f : A → Op B}
    → Faithful m
    → ((a : A) → Faithful (f a))
    → Faithful (m >>= f)
unfolding ◌>>=◌
>>=-Faithful {m = m} {f = f} ms fs = record {
  agree = λ c c₀ e k. bind-Agree f fs (m c) (m c₀) (m c₀).0 refl (ms.agree c c₀ e k);
}

-- An operation that is one transaction leaves no trace of a failure of the driver, at whichever
-- statement, Begin and Commit included: either it reports that failure and the tables are as they
-- were, or its result and the tables are those of a run without faults.
abbrev pub IsAtomic : {A : Type 0} → Op A → Type 0
IsAtomic m =
    (c : Conn)
    → ((m c).0 ≡ err driver) × ((m c).1.db ≡ c.db)
      ⊎ ((m c).0 ≡ (run m c.db).0) × ((m c).1.db ≡ (run m c.db).1)

abbrev Outcome : {A : Type 0} → Op A → Conn → Type 0
Outcome m c =
    ((m c).0 ≡ err driver) × ((m c).1.db ≡ c.db)
    ⊎ ((m c).0 ≡ (run m c.db).0) × ((m c).1.db ≡ (run m c.db).1)

-- A run whose transaction ends well commits.
run_commits :
    {A : Type 0} (m : Op A) (db : Db) (a : A)
    → (m (tick (calm db))).0 ≡ ok a
    → Clean (m (tick (calm db))).1
    → run (with_tx m) db ≡ (ok a, (m (tick (calm db))).1.db)
unfolding with_tx run
run_commits m db a e k = rw e (rw (k (m (tick (calm db))).1.step) refl)

run_aborts :
    {A : Type 0} (m : Op A) (db : Db) (x : Error)
    → (m (tick (calm db))).0 ≡ err x
    → run (with_tx m) db ≡ (err x, db)
unfolding with_tx run
run_aborts m db x e = rw e refl

started :
    {A : Type 0} (m : Op A) (c : Conn) (v : Result A)
    → c.fault c.step ≡ false
    → (m (tick (calm c.db))).0 ≡ v
    → Agree (m (tick c)) (m (tick (calm c.db)))
    → Outcome (with_tx m) c
unfolding with_tx
started m c v fine e (broken b) = inl (rw (fine, b) refl, rw (fine, b) refl)
started m c (err x) fine e (same p q k) = inr (
  rw (run_aborts m c.db x e) (rw (fine, p, e) refl),
  rw (run_aborts m c.db x e) (rw (fine, p, e) refl),
)
started m c (ok a) fine e (same p q k) =
    elim (Bool-cases ((m (tick c)).1.fault (m (tick c)).1.step)) [
      | inl bad ↦ inl (rw (fine, p, e, bad) refl, rw (fine, p, e, bad) refl)
      | inr good ↦ inr (
        rw (run_commits m c.db a e k) (rw (fine, p, e, good) refl),
        rw (run_commits m c.db a e k) (rw (fine, p, e, good) q),
      )
    ]

pub with_tx-IsAtomic : {A : Type 0} {m : Op A} → Faithful m → IsAtomic (with_tx m)
unfolding with_tx
with_tx-IsAtomic {m = m} f c = elim (Bool-cases (c.fault c.step)) [
  | inl bad ↦ inl (rw bad refl, rw bad refl)
  | inr fine ↦
      started m c (m (tick (calm c.db))).0 fine refl
        (f.agree (tick c) (tick (calm c.db)) refl (λ n. refl))
]

-- A transaction that fails leaves the tables as they were, whatever was done in it.
pub with_tx_rollback :
    {A : Type 0} (m : Op A) (c : Conn) (e : Error)
    → (with_tx m c).0 ≡ err e
    → (with_tx m c).1.db ≡ c.db
unfolding with_tx
with_tx_rollback m c e h = ground arith

pub if-Faithful :
    {A : Type 0} (b : Bool) {m k : Op A} → Faithful m → Faithful k → Faithful (if b then m else k)
if-Faithful true p q = p
if-Faithful false p q = q

pub of_result-Faithful : {A : Type 0} (r : Result A) → Faithful (of_result r)
of_result-Faithful (ok a) = pure-Faithful a
of_result-Faithful (err e) = fail_with-Faithful e

missing-Agree :
    {A : Type 0} (r r₀ : Result A × Conn)
    → Agree r r₀
    → Agree {A = A} (rename r.0, r.1) (rename r₀.0, r₀.1)
missing-Agree r r₀ (broken b) = rw b (broken refl)
missing-Agree r r₀ (same p q k) = same (ap rename p) q k

pub missing-Faithful : {A : Type 0} {m : Op A} → Faithful m → Faithful (missing_as_not_found m)
missing-Faithful {m = m} f = record {
  agree = λ c c₀ e k. missing-Agree (m c) (m c₀) (f.agree c c₀ e k);
}

module _ {A : Type 0} (P : Db → Type 0) (m : Op A) where
  kept_by :
      (c : Conn) (x : Result A × Conn)
      → Ensures (with_tx m) (λ d a d'. P d → P d')
      → with_tx m c ≡ x
      → P c.db
      → P x.1.db
  kept_by c (ok a, c') h e p = h.holds c c' a e p
  kept_by c (err x, c') h e p =
      subst P
        (sym (with_tx_rollback m c x (ap (λ (r : Result A × Conn). r.0) e))
          ∙ ap (λ (r : Result A × Conn). r.1.db) e)
        p

  -- What every successful run of a transaction keeps holds after it in any case.
  pub with_tx-keeps :
      Ensures (with_tx m) (λ d a d'. P d → P d') → (c : Conn) → P c.db → P (with_tx m c).1.db
  with_tx-keeps h c p = kept_by c (with_tx m c) h refl p

-- What a change of the tables keeps holds after it, whether or not the statement fails.
pub change-keeps :
    (P : Db → Type 0) (f : Db → Db)
    → ((d : Db) → P d → P (f d))
    → (c : Conn) → P c.db
    → P (change f c).1.db
unfolding exec
change-keeps P f h c p = elim (Bool-cases (c.fault c.step)) [
  | inl bad ↦ rw bad p
  | inr fine ↦ rw fine (h c.db p)
]

pub query-keeps :
    {A : Type 0} (P : Db → Type 0) (f : Db → A) (c : Conn) → P c.db → P (query f c).1.db
unfolding exec
query-keeps P f c p = elim (Bool-cases (c.fault c.step)) [
  | inl bad ↦ rw bad p
  | inr fine ↦ rw fine p
]

answered_keeps :
    {A B : Type 0} (P : Db → Type 0) (g : A → B) (r : Result A × Conn)
    → P r.1.db
    → P (continue_with r.0 (λ a. pure (g a)) r.1).1.db
answered_keeps P g (ok a, c) p = p
answered_keeps P g (err e, c) p = p

pub >>=-pure-keeps :
    {A B : Type 0} (P : Db → Type 0) (m : Op A) (g : A → B) (c : Conn)
    → P (m c).1.db
    → P ((m >>= λ a. pure (g a)) c).1.db
unfolding ◌>>=◌
>>=-pure-keeps P m g c p = answered_keeps P g (m c) p
