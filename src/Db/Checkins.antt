-- ===== src/Db/Checkins.antt =====
-- backend/db/checkins.sql.go: the check-ins that are recorded.
use ping.Prelude.{ℕ, ◌+◌, String, Option, [], ◌∷◌, ◌++◌, if◌then◌else◌}
use ping.Db.{Db, Checkin, CheckinKind, unknown, has_monitor}
use ping.Db.Result.{Result, ok, err, check_violation, foreign_key_violation}

abbrev pub with_checkin : Checkin → Db → Db
with_checkin c db = record db {
  checkins = db.checkins ++ c ∷ [];
  next_checkin_id = db.next_checkin_id + 1;
}

-- The CHECK constraint on the column `kind`.
abbrev kind_checked : CheckinKind → Result (Checkin × Db) → Result (Checkin × Db)
kind_checked (unknown _) r = err check_violation
kind_checked _ r = r

unfoldable pub insert_checkin :
    ℕ → CheckinKind → Option String → Option String → Option String → Db → Result (Checkin × Db)
insert_checkin monitor_id kind source_ip user_agent body db =
    let row : Checkin = record {
      id = db.next_checkin_id;
      monitor_id = monitor_id;
      kind = kind;
      source_ip = source_ip;
      user_agent = user_agent;
      body = body;
      created_at = db.now;
    } in
    kind_checked kind (
      if has_monitor monitor_id db
      then ok (row, with_checkin row db)
      else err foreign_key_violation)
