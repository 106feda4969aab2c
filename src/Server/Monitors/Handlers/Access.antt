-- ===== src/Server/Monitors/Handlers/Access.antt =====
-- The handlers leave the monitors of others alone.
use mathlib.Core.Option.{some-injective}
use ping.Prelude.{
  ℕ, ◌≡◌, refl, ap, ◌⊎◌, inl, inr, false, Option, none, some, find, ◌==◌, Bool-cases, if◌then◌else◌,
  arith,
}
use ping.Schedule.{Zones}
use ping.Db.{Monitor, has_id}
use ping.Db.Result.{Result, err, Error, driver, not_found, forbidden}
use ping.Db.Monitors.{get_monitor_by_id}
use ping.Store.{Conn, Op, exec, ◌>>=◌}
use ping.Store.Monitors.{get_monitor}
use ping.Server.Monitors.{UpdateMonitorRequest, Formats}
use ping.Server.Monitors.Handlers.{handle_update, handle_delete}

-- Why a caller may not touch what the look-up of an id finds.
abbrev pub barred : Option Monitor → ℕ → Option Error
barred none user = some not_found
barred (some m) user = if m.user_id == user then none else some forbidden

-- The result is this error, or that of the driver, and the tables are as they were.
abbrev pub Rests : {A : Type 0} → Error → Conn → Result A × Conn → Type 0
Rests e c r = ((r.0 ≡ err e) ⊎ (r.0 ≡ err driver)) × (r.1.db ≡ c.db)

module _ (e : Error) (c : Conn) where
  bind-Rests : {A B : Type 0} (m : Op A) (f : A → Op B) → Rests e c (m c) → Rests e c ((m >>= f) c)
  unfolding ◌>>=◌
  bind-Rests m f (inl p, q) = (inl (rw p refl), rw p q)
  bind-Rests m f (inr p, q) = (inr (rw p refl), rw p q)

looked :
    (i user : ℕ) (c : Conn) (e : Error) (o : Option Monitor)
    → c.fault c.step ≡ false
    → find (has_id i) c.db.monitors ≡ o
    → barred o user ≡ some e
    → Rests e c (get_monitor i user c)
unfolding get_monitor ◌>>=◌ exec get_monitor_by_id
looked i user c e none fine q h =
    (inl (rw (fine, q) (ap err (some-injective _ _ h))), rw (fine, q) refl)
looked i user c e (some m) fine q h = elim (Bool-cases (m.user_id == user)) [
  | inl k ↦ absurd (ground (arith, rw k at h))
  | inr k ↦ (inl (rw (fine, q, k) (ap err (some-injective _ _ (rw k at h)))), rw (fine, q, k) refl)
]

get-Rests :
    (i user : ℕ) (c : Conn) (e : Error)
    → barred (find (has_id i) c.db.monitors) user ≡ some e
    → Rests e c (get_monitor i user c)
unfolding get_monitor ◌>>=◌ exec get_monitor_by_id
get-Rests i user c e h = elim (Bool-cases (c.fault c.step)) [
  | inl bad ↦ (inr (rw bad refl), rw bad refl)
  | inr fine ↦ looked i user c e (find (has_id i) c.db.monitors) fine refl h
]

module _ (z : Zones) (formats : Formats) (i user : ℕ) (c : Conn) (e : Error) where
  -- A PATCH or a deletion of a monitor that is not there is refused as not found, and one of a
  -- monitor of another user as forbidden, unless the driver fails; the tables stay as they were.
  pub access_lem :
      (req : UpdateMonitorRequest)
      → barred (find (has_id i) c.db.monitors) user ≡ some e
      → Rests e c (handle_update z formats i user req c) × Rests e c (handle_delete i user c)
  unfolding handle_update handle_delete
  access_lem req h =
      (bind-Rests e c _ _ (get-Rests i user c e h), bind-Rests e c _ _ (get-Rests i user c e h))
