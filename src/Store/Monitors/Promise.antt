-- ===== src/Store/Monitors/Promise.antt =====
-- The monitors that come, change and go leave the outbox in order, and so does the daily rollup.
use mathlib.Core.Path.{subst}
use ping.Prelude.{
  ℕ, zero, suc, ◌+◌, ◌≡◌, refl, sym, ◌++◌, inl, inr, Bool, true, false, Option, none, some, List,
  [], ◌∷◌, find, is_some, ◌==◌, Bool-cases, if◌then◌else◌, arith,
}
use ping.Prelude.Int.{ℤ}
use ping.Schedule.{Instant}
use ping.Db.{Db, Monitor, EventType, Meta, text, DailyStat, has_monitor}
use ping.Db.Result.{Result, ok, err, slug_retries_exhausted, not_found}
use ping.Db.Edits
use ping.Db.Stats.{upsert_daily_stat}
use ping.Db.Monitors.{is_owned}
use ping.Store.{Conn, Op, pure, fail_with, exec}
use ping.Store.Keeps.{Keeps, exec-Keeps, fail_with-Keeps, pure-Keeps, >>=-Keeps, if-Keeps}
use ping.Store.Steps.{weaken}
use ping.Store.Tx.{with_tx-keeps, query-keeps}
use ping.Store.Promise.{IsOutbox, moved-IsOutbox, noted-IsOutbox}
use ping.Store.Removal.{without_monitor-IsOutbox}
use ping.Store.Monitors.{
  CreateMonitorParams, UpdateMonitorParams, Draw, insert_params, retry_on_unique,
  is_unique_violation, attempt, create_attempts, create_monitor, max_slug_retries, update_monitor,
  delete_monitor, changed_fields_meta,
}
use ping.Store.Monitors.Slug.{slug_of}
use ping.Store.Monitors.Laws.{create_monitor_ok, change_noted, update-Ensures}
use ping.Store.Rollup.Day.{Stats, upsert_all, rollup_day}

created_tables :
    (id : ℕ) (p : Edits.CreateMonitorParams) (d : Db) (r : Monitor) (d' : Db)
    → Edits.create_monitor id p d ≡ ok (r, d')
    → d' ≡ record d { monitors = d.monitors ++ r ∷ [] }
created_tables id p d r d' h = (create_monitor_ok id p d r d' h).3

created_kept :
    (id : ℕ) (p : Edits.CreateMonitorParams) (d : Db) (r : Monitor) (d' : Db)
    → Edits.create_monitor id p d ≡ ok (r, d')
    → IsOutbox d
    → IsOutbox d'
unfolding Edits.create_monitor
created_kept id p d r d' h o =
    subst IsOutbox (sym (created_tables id p d r d' h)) (moved-IsOutbox o)

retried :
    (r : Result Monitor × Conn) (next : Op Monitor)
    → Keeps IsOutbox next
    → IsOutbox r.1.db
    → IsOutbox (retry_on_unique r.0 next r.1).1.db
retried (ok m, c) next h o = o
retried (err e, c) next h o = elim (Bool-cases (is_unique_violation e)) [
  | inl q ↦ rw q (h c o)
  | inr q ↦ rw q o
]

attempt-Keeps :
    (p : CreateMonitorParams) (b : Option (List ℕ)) (uuid : ℕ) (next : Op Monitor)
    → Keeps IsOutbox next
    → Keeps IsOutbox (attempt p b uuid next)
attempt-Keeps p none uuid next h c o = o
attempt-Keeps p (some bytes) uuid next h c o =
    retried (exec (Edits.create_monitor uuid (insert_params p (slug_of bytes))) c) next h
      (exec-Keeps IsOutbox _ (created_kept uuid (insert_params p (slug_of bytes))) c o)

attempts-Keeps :
    (p : CreateMonitorParams) (draw : ℕ → Draw) (left k : ℕ)
    → Keeps IsOutbox (create_attempts p draw left k)
unfolding create_attempts
attempts-Keeps p draw zero k = fail_with-Keeps IsOutbox Monitor slug_retries_exhausted
attempts-Keeps p draw (suc left) k =
    attempt-Keeps p (draw k).bytes (draw k).uuid (create_attempts p draw left (k + 1))
      (attempts-Keeps p draw left (k + 1))

pub create-IsOutbox :
    (p : CreateMonitorParams) (draw : ℕ → Draw) → Keeps IsOutbox (create_monitor p draw)
unfolding create_monitor
create-IsOutbox p draw = attempts-Keeps p draw max_slug_retries 0

change_kept : (i : ℕ) (o : Option Meta) (d : Db) → IsOutbox d → IsOutbox (change_noted i o d)
change_kept i none d o = o
change_kept i (some meta) d o =
    noted-IsOutbox i EventType.config_change (text "Configuration updated") meta d o refl

pub update-IsOutbox :
    (i user : ℕ) (p : UpdateMonitorParams) → Keeps IsOutbox (update_monitor i user p)
unfolding update_monitor
update-IsOutbox i user p = with_tx-keeps IsOutbox _ (
    weaken (update-Ensures i user p) (λ d r d' (m, _, _, e) o.
      subst IsOutbox (sym e) (change_kept r.id (changed_fields_meta p) _ (moved-IsOutbox o))))

deleted_kept :
    (b : Bool) (i user : ℕ) (d : Db)
    → IsOutbox d
    → IsOutbox (if b then Edits.without_monitor i user d else d)
deleted_kept true i user d o = without_monitor-IsOutbox i user d o
deleted_kept false i user d o = o

pub delete-IsOutbox : (i user : ℕ) → Keeps IsOutbox (delete_monitor i user)
unfolding delete_monitor Edits.delete_monitor
delete-IsOutbox i user =
    >>=-Keeps IsOutbox _ _
      (exec-Keeps IsOutbox _ (λ d n d' e o.
        subst IsOutbox (ground (arith, e))
          (deleted_kept (is_some (find (is_owned i user) d.monitors)) i user d o)))
      (λ n.
        if-Keeps IsOutbox (n == 0) (fail_with not_found) (pure tt)
          (fail_with-Keeps IsOutbox (Unit {0}) not_found) (pure-Keeps IsOutbox tt))

ok_tables :
    (a b : Db) (u v : Unit {0}) → ◌≡◌ {A = Result (Unit {0} × Db)} (ok (u, a)) (ok (v, b)) → a ≡ b
ok_tables a b u v e = ground (arith, e)

upserted_kept :
    (row : DailyStat) (d : Db) (u : Unit {0}) (d' : Db)
    → upsert_daily_stat row d ≡ ok (u, d')
    → IsOutbox d
    → IsOutbox d'
unfolding upsert_daily_stat
upserted_kept row d u d' h o = elim (Bool-cases (has_monitor row.monitor_id d)) [
  | inl e ↦
      subst IsOutbox (ok_tables _ d' tt u (rw e at h))
        (record { paired = o.paired; fresh = o.fresh; ordered = o.ordered })
  | inr e ↦ absurd (ground (arith, rw e at h))
]

upserts-Keeps : (day : Instant) (m : Stats) → Keeps IsOutbox (upsert_all day m)
unfolding upsert_all
upserts-Keeps day [] = pure-Keeps IsOutbox tt
upserts-Keeps day ((i, s) ∷ m) =
    >>=-Keeps IsOutbox _ _ (exec-Keeps IsOutbox _ (upserted_kept _)) (λ _. upserts-Keeps day m)

pub rollup-IsOutbox :
    (percentile : ℕ → List ℤ → Option ℤ) (visit : Stats → Stats) (day : Instant)
    → Keeps IsOutbox (rollup_day percentile visit day)
unfolding rollup_day
rollup-IsOutbox percentile visit day = >>=-Keeps IsOutbox _ _ (query-keeps IsOutbox _) (λ a.
    >>=-Keeps IsOutbox _ _ (query-keeps IsOutbox _) (λ b.
      >>=-Keeps IsOutbox _ _ (query-keeps IsOutbox _)
        (λ c. >>=-Keeps IsOutbox _ _ (upserts-Keeps _ _) (λ _ c o. o))))
