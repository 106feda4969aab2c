-- ===== src/Store.antt =====
-- backend/store/store.go: operations as programs over a connection. Each statement may fail for a
-- reason of the driver's own: `fault n` says whether the n-th statement of the connection does.
-- `with_tx` is withTx: what is done in it is undone unless the commit succeeds.
pub mod Tx
pub mod Steps
pub mod Timeline
pub mod Promise
pub mod Returns
pub mod Answers
pub mod Keeps
pub mod Checkin
pub mod Scheduler
pub mod Prober
pub mod Alerter
pub mod Session
pub mod Events
pub mod Pages
pub mod Rollup
pub mod Monitors
pub mod Removal
pub mod RateLimit
pub mod ApiKeys
use ping.Prelude.{ℕ, ◌+◌, Bool, false, if◌then◌else◌}
use ping.Db.{Db}
use ping.Db.Result.{Result, ok, err, Error, driver, no_rows, not_found}

pub record Conn : Type 0 where
  pub db : Db
  pub fault : ℕ → Bool
  pub step : ℕ

abbrev pub Op : Type 0 → Type 0
Op A = Conn → Result A × Conn

abbrev pub tick : Conn → Conn
tick c = record c { step = c.step + 1 }

abbrev pub pure : {A : Type 0} → A → Op A
pure a c = (ok a, c)

abbrev pub fail_with : {A : Type 0} → Error → Op A
fail_with e c = (err e, c)

abbrev pub continue_with : {A B : Type 0} → Result A → (A → Op B) → Op B
continue_with (ok a) f c = f a c
continue_with (err e) f c = (err e, c)

infixl 5 ◌>>=◌ ◌>>◌
unfoldable pub ◌>>=◌ : {A B : Type 0} → Op A → (A → Op B) → Op B
◌>>=◌ m f c = let r = m c in continue_with r.0 f r.1

abbrev pub ◌>>◌ : {A B : Type 0} → Op A → Op B → Op B
m >> k = m >>= λ _. k

abbrev settle : {A : Type 0} → Result (A × Db) → Op A
settle (ok (a, db)) c = (ok a, record c { db = db })
settle (err e) c = (err e, c)

-- One statement: it fails for the driver's reason, or answers what the tables give.
unfoldable pub exec : {A : Type 0} → (Db → Result (A × Db)) → Op A
exec f c = if c.fault c.step then (err driver, tick c) else settle (f c.db) (tick c)

abbrev pub query : {A : Type 0} → (Db → A) → Op A
query f = exec (λ db. ok (f db, db))

abbrev pub change : (Db → Db) → Op (Unit {0})
change f = exec (λ db. ok (tt, f db))

-- The end of a transaction that began at `old`: Commit on success, Rollback on an error.
unfoldable pub close : {A : Type 0} → Db → Result A → Op A
close old (ok a) c =
    if c.fault c.step then (err driver, record (tick c) { db = old }) else (ok a, tick c)
close old (err e) c = (err e, record c { db = old })

unfoldable pub with_tx : {A : Type 0} → Op A → Op A
unfolding close exec
with_tx m c =
    if c.fault c.step then (err driver, tick c) else let r = m (tick c) in close c.db r.0 r.1

-- A connection on which no statement fails for the driver's reason.
abbrev pub calm : Db → Conn
calm db = record { db = db; fault = λ _. false; step = 0 }

-- An operation where the driver never fails.
unfoldable pub run : {A : Type 0} → Op A → Db → Result A × Db
run m db = let r = m (calm db) in (r.0, r.1.db)

abbrev pub of_result : {A : Type 0} → Result A → Op A
of_result (ok a) = pure a
of_result (err e) = fail_with e

abbrev pub rename : {A : Type 0} → Result A → Result A
rename (err no_rows) = err not_found
rename r = r

-- pgx.ErrNoRows becomes ErrNotFound.
abbrev pub missing_as_not_found : {A : Type 0} → Op A → Op A
missing_as_not_found m c = let r = m c in (rename r.0, r.1)
