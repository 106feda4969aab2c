-- ===== src/Db/Monitors.antt =====
-- backend/db/monitors.sql.go: the statements on monitors that the workers and the ingest path use.
use ping.Prelude.{
  ℕ, String, Bool, true, false, not, ◌&&◌, Option, none, some, List, ltb, ◌==◌, if◌then◌else◌, find,
  select, take, update_where, is_none, map_option,
}
use ping.Prelude.Int.{ℤ, pos, negsuc, suc_int32, int32_max}
use text.Mathlib.Text.{◌==◌ as str_eq}
use ping.Schedule.{Instant}
use ping.Db.{Db, Monitor, MonitorKind, http, State, has_id}
use ping.Db.Result.{Result, ok, err, no_rows, out_of_range}
use ping.Db.Sort.{sort_by}

-- The column `next_deadline` or `next_probe_at`, in a comparison: NULL passes none.
abbrev pub is_past : Instant → Option Instant → Bool
is_past now none = false
is_past now (some t) = ltb t now

abbrev pub instant_or : Option Instant → Instant
instant_or none = 0
instant_or (some t) = t

abbrev pub is_armed : State → Bool
is_armed State.up = true
is_armed State.late = true
is_armed _ = false

-- `locked` are the rows that other transactions hold: SKIP LOCKED passes them over.
unfoldable pub is_due : Instant → (ℕ → Bool) → Monitor → Bool
is_due now locked m =
    is_past now m.next_deadline && is_armed m.state && is_none m.paused_at && not (locked m.id)

unfoldable pub claim_due_monitors : Instant → ℕ → (ℕ → Bool) → Db → List Monitor
claim_due_monitors now limit locked db =
    take limit (sort_by (λ m. instant_or m.next_deadline) (select (is_due now locked) db.monitors))

abbrev pub is_http : MonitorKind → Bool
is_http http = true
is_http _ = false

unfoldable pub is_probe_due : Instant → (ℕ → Bool) → Monitor → Bool
is_probe_due now locked m =
    is_past now m.next_probe_at && is_http m.kind && is_none m.paused_at && not (locked m.id)

unfoldable pub claim_due_probes : Instant → ℕ → (ℕ → Bool) → Db → List Monitor
claim_due_probes now limit locked db =
    take limit
      (sort_by (λ m. instant_or m.next_probe_at) (select (is_probe_due now locked) db.monitors))

abbrev pub has_slug : String → Monitor → Bool
has_slug s m = str_eq m.slug s

abbrev row_of : Option Monitor → Db → Result (Monitor × Db)
row_of none db = err no_rows
row_of (some m) db = ok (m, db)

unfoldable pub get_monitor_by_id : ℕ → Db → Result (Monitor × Db)
get_monitor_by_id i db = row_of (find (has_id i) db.monitors) db

unfoldable pub get_monitor_by_slug_for_update : String → Db → Result (Monitor × Db)
get_monitor_by_slug_for_update s db = row_of (find (has_slug s) db.monitors) db

-- An UPDATE of the monitor with this id.
abbrev pub set_monitor : ℕ → (Monitor → Monitor) → Db → Db
set_monitor i f db = record db { monitors = update_where (has_id i) f db.monitors }

unfoldable pub mark_monitor_late : ℕ → Option Instant → Db → Db
mark_monitor_late i next_deadline db =
    set_monitor i
      (λ m. record m { state = State.late; next_deadline = next_deadline; updated_at = db.now }) db

abbrev is_max : ℤ → Bool
is_max (pos n) = n == int32_max
is_max (negsuc n) = false

abbrev streak_overflows : Option Monitor → Bool
streak_overflows none = false
streak_overflows (some m) = is_max m.fail_streak

-- SQL refuses a sum out of the range of INTEGER.
unfoldable pub mark_monitor_down : ℕ → Db → Result (Unit {0} × Db)
mark_monitor_down i db =
    if streak_overflows (find (has_id i) db.monitors)
    then err out_of_range
    else ok (
      tt,
      set_monitor i
          (λ m. record m {
            state = State.down;
            next_deadline = none;
            fail_streak = suc_int32 m.fail_streak;
            updated_at = db.now;
          })
          db,
    )

-- The change of UpdateMonitorOnCheckin to the row.
abbrev pub on_checkin : State → Option Instant → Option Instant → ℤ → Instant → Monitor → Monitor
on_checkin state last_checkin_at next_deadline fail_streak now m = record m {
  state = state;
  last_checkin_at = last_checkin_at;
  next_deadline = next_deadline;
  fail_streak = fail_streak;
  paused_at = if m.auto_resume then none else m.paused_at;
  updated_at = now;
}

unfoldable pub update_monitor_on_checkin : ℕ → State → Option Instant → Option Instant → ℤ → Db → Db
update_monitor_on_checkin i state last_checkin_at next_deadline fail_streak db =
    set_monitor i (on_checkin state last_checkin_at next_deadline fail_streak db.now) db

abbrev pub is_owned : ℕ → ℕ → Monitor → Bool
is_owned i user m = m.id == i && m.user_id == user

-- An UPDATE of the monitor with this id and owner that returns the row.
abbrev updated_row : Option Monitor → Db → Result (Monitor × Db)
updated_row none db = err no_rows
updated_row (some m) db = ok (m, db)

unfoldable pub update_owned : ℕ → ℕ → (Monitor → Monitor) → Db → Result (Monitor × Db)
update_owned i user f db =
    updated_row (map_option f (find (is_owned i user) db.monitors))
      (record db { monitors = update_where (is_owned i user) f db.monitors })

abbrev pub paused_row : Instant → Monitor → Monitor
paused_row now m = record m { paused_at = some now; updated_at = now }

abbrev pub muted_row : Bool → Instant → Monitor → Monitor
muted_row muted now m = record m { alerts_muted = muted; updated_at = now }

abbrev pub resumed_row : Option Instant → Instant → Monitor → Monitor
resumed_row next_deadline now m = record m {
  paused_at = none;
  state = State.up;
  next_deadline = next_deadline;
  updated_at = now;
}

unfoldable pub pause_monitor : ℕ → ℕ → Db → Result (Monitor × Db)
unfolding update_owned
pause_monitor i user db = update_owned i user (paused_row db.now) db

unfoldable pub mute_monitor : ℕ → ℕ → Db → Result (Monitor × Db)
unfolding update_owned
mute_monitor i user db = update_owned i user (muted_row true db.now) db

unfoldable pub unmute_monitor : ℕ → ℕ → Db → Result (Monitor × Db)
unfolding update_owned
unmute_monitor i user db = update_owned i user (muted_row false db.now) db

unfoldable pub resume_monitor : Option Instant → ℕ → ℕ → Db → Result (Monitor × Db)
unfolding update_owned
resume_monitor next_deadline i user db = update_owned i user (resumed_row next_deadline db.now) db
