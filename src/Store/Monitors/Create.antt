-- ===== src/Store/Monitors/Create.antt =====
-- The creation of a monitor takes the first of five draws whose slug and id are free.
use mathlib.Core.Path.{subst}
use ping.Prelude.{
  ℕ, zero, suc, ◌+◌, ◌≡◌, refl, sym, ◌∙◌, inl, inr, Bool, true, not, ◌&&◌, ◌||◌, Option, none, some,
  List, [], ◌∷◌, ◌++◌, find, is_some, Bool-cases, if◌then◌else◌,
}
use ping.Db.{Db, Monitor, has_id}
use ping.Db.Result.{Error, Result, ok, err, unique_violation, slug_retries_exhausted}
use ping.Db.Edits
use ping.Db.Edits.{created_row, is_known_kind, is_known_method, has_user}
use ping.Db.Monitors.{has_slug}
use ping.Store.{Conn, Op, tick, exec}
use ping.Store.Tx.{Clean}
use ping.Store.Monitors.{
  CreateMonitorParams, Draw, insert_params, retry_on_unique, create_attempts, create_monitor,
  max_slug_retries,
}
use ping.Store.Monitors.Slug.{slug_of}

exec_value :
    {A : Type 0} (f : Db → Result (A × Db)) (c : Conn) (d : Db) (a : A) (d' : Db)
    → c.db ≡ d
    → Clean c
    → f d ≡ ok (a, d')
    → exec f c ≡ (ok a, record (tick c) { db = d' })
unfolding exec
exec_value f c d a d' e clean q = rw (clean c.step, e, q) refl

exec_error :
    {A : Type 0} (f : Db → Result (A × Db)) (c : Conn) (d : Db) (x : Error)
    → c.db ≡ d
    → Clean c
    → f d ≡ err x
    → exec f c ≡ (err x, tick c)
unfolding exec
exec_error f c d x e clean q = rw (clean c.step, e, q) refl

module _ (p : CreateMonitorParams) (bytes : ℕ → List ℕ) (uuid : ℕ → ℕ) where
  -- A source of random bytes that never fails.
  abbrev pub draws : ℕ → Draw
  draws k = record { bytes = some (bytes k); uuid = uuid k }

  -- Whether the slug and the id of the k-th draw are free.
  abbrev pub is_free : Db → ℕ → Bool
  is_free d k = not (
      is_some (find (has_slug (slug_of (bytes k))) d.monitors)
      || is_some (find (has_id (uuid k)) d.monitors))

  abbrev pub first_free : Db → ℕ → ℕ → Option ℕ
  first_free d zero k = none
  first_free d (suc left) k = if is_free d k then some k else first_free d left (k + 1)

  abbrev pub row_of : Db → ℕ → Monitor
  row_of d k = created_row (uuid k) (insert_params p (slug_of (bytes k))) d.now

  -- What the draws are owed: the row of the first that is free, at the end of the table.
  abbrev pub Owed : Db → Option ℕ → Result Monitor → Db → Type 0
  Owed d none r d' = (r ≡ err slug_retries_exhausted) × (d' ≡ d)
  Owed d (some k) r d' =
      (r ≡ ok (row_of d k)) × (d' ≡ record d { monitors = d.monitors ++ row_of d k ∷ [] })

  module _ (d : Db)
      (known : is_known_kind p.schedule_kind && is_known_method (insert_params p "").method ≡ true)
      (user : is_some (find (has_user p.user_id) d.users) ≡ true) where
    inserted :
        (k : ℕ)
        → Edits.create_monitor (uuid k) (insert_params p (slug_of (bytes k))) d ≡ (
            if is_free d k
            then ok (row_of d k, record d { monitors = d.monitors ++ row_of d k ∷ [] })
            else err unique_violation)
    unfolding Edits.create_monitor
    inserted k =
        rw known
          (elim (Bool-cases (
            is_some (find (has_slug (slug_of (bytes k))) d.monitors)
            || is_some (find (has_id (uuid k)) d.monitors))) [
              | inl e ↦ rw e refl
              | inr e ↦ rw (e, user) refl
            ])

    abbrev Ends : Option ℕ → Op Monitor → Result Monitor × Conn → Type 0
    Ends o next x = Owed d o (retry_on_unique x.0 next x.1).0 (retry_on_unique x.0 next x.1).1.db

    attempts_lem :
        (left k : ℕ) (c : Conn)
        → c.db ≡ d
        → Clean c
        → Owed d
            (first_free d left k)
            (create_attempts p draws left k c).0
            (create_attempts p draws left k c).1.db
    unfolding create_attempts
    attempts_lem zero k c e clean = (refl, e)
    attempts_lem (suc left) k c e clean = elim (Bool-cases (is_free d k)) [
      | inl f ↦ rw f (
          subst (Ends (some k) (create_attempts p draws left (k + 1)))
            (sym (exec_value _ c d _ _ e clean (inserted k ∙ rw f refl))) (refl, refl))
      | inr f ↦ rw f (
          subst (Ends (first_free d left (k + 1)) (create_attempts p draws left (k + 1)))
            (sym (exec_error _ c d unique_violation e clean (inserted k ∙ rw f refl)))
            (attempts_lem left (k + 1) (tick c) e clean))
    ]

    -- Where no statement and no draw fails, the owner is in the table, and the kind of the schedule
    -- and the method are known, a monitor is created with the first of five draws whose slug and id
    -- are free, at the end of the table; nothing is created, and the error says so, exactly if
    -- none of the five is free.
    pub create_monitor_lem :
        (c : Conn)
        → c.db ≡ d
        → Clean c
        → Owed d (first_free d 5 0) (create_monitor p draws c).0 (create_monitor p draws c).1.db
    unfolding create_monitor
    create_monitor_lem c e clean = attempts_lem max_slug_retries 0 c e clean
