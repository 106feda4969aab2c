-- ===== src/Store/Pages.antt =====
-- backend/store/events.go and db/events.sql.go: the timelines of a monitor and of a user, page by
-- page. base64 and the decimal text of the cursors are the parameters `encode` and `decode`; the
-- empty cursor is the first page.
pub mod Order
pub mod Follow
mod Examples
use text.Mathlib.Text.{◌==◌ as str_eq}
use ping.Prelude.{
  ℕ, zero, suc, ◌+◌, String, Bool, true, false, ◌&&◌, ◌||◌, Option, none, some, List, [], ◌∷◌, ◌++◌,
  length, take, select, ltb, ◌==◌, if◌then◌else◌,
}
use ping.Schedule.Text.{is_empty}
use ping.Db.{
  Db, Monitor, Event, EventType, up, down, late, tls_expiry, alert_failed, config_change, pause,
  resume, mute, unmute,
}
use ping.Db.Sort.{sort_by}
use ping.Store.Checkin.{text_or_null}

-- The text of the column `type`.
pub type_name : EventType → String
type_name up = "up"
type_name down = "down"
type_name late = "late"
type_name tls_expiry = "tls_expiry"
type_name alert_failed = "alert_failed"
type_name config_change = "config_change"
type_name pause = "pause"
type_name resume = "resume"
type_name mute = "mute"
type_name unmute = "unmute"

abbrev pub has_type : Option String → Event → Bool
has_type none e = true
has_type (some name) e = str_eq (type_name e.type) name

abbrev pub is_below : Option ℕ → Event → Bool
is_below none e = true
is_below (some c) e = ltb e.id c

abbrev pub is_wanted : ℕ → Option String → Event → Bool
is_wanted i type e = e.monitor_id == i && has_type type e

abbrev pub reverse : List Event → List Event
reverse [] = []
reverse (e ∷ es) = reverse es ++ e ∷ []

-- ORDER BY id DESC.
abbrev pub by_id_desc : List Event → List Event
by_id_desc es = reverse (sort_by (λ e. e.id) es)

unfoldable pub list_events_by_monitor_page : ℕ → Option String → Option ℕ → ℕ → Db → List Event
list_events_by_monitor_page i type cursor limit db =
    take limit (by_id_desc (select (λ e. is_wanted i type e && is_below cursor e) db.events))

-- JOIN monitors m ON m.id = e.monitor_id, WHERE m.user_id. As the id of a monitor is its primary
-- key, the join has at most one row for an event.
abbrev pub is_owned : ℕ → List Monitor → Event → Bool
is_owned user [] e = false
is_owned user (m ∷ ms) e = (m.id == e.monitor_id && m.user_id == user) || is_owned user ms e

abbrev pub has_monitor : Option ℕ → Event → Bool
has_monitor none e = true
has_monitor (some i) e = e.monitor_id == i

abbrev pub is_users : ℕ → Option ℕ → Option String → Db → Event → Bool
is_users user i type db e = is_owned user db.monitors e && (has_monitor i e && has_type type e)

unfoldable pub list_events_by_user_page :
    ℕ → Option ℕ → Option String → Option ℕ → ℕ → Db → List Event
list_events_by_user_page user i type cursor limit db =
    take limit (by_id_desc (select (λ e. is_users user i type db e && is_below cursor e) db.events))

pub record EventPage : Type 0 where
  pub events : List Event
  pub next_cursor : String

abbrev pub last_id : List Event → ℕ
last_id [] = 0
last_id (e ∷ []) = e.id
last_id (e ∷ f ∷ es) = last_id (f ∷ es)

module _ (encode : ℕ → String) (decode : String → Option ℕ) where
  abbrev pub to_event_page : List Event → ℕ → EventPage
  to_event_page rows limit = record {
    events = rows;
    next_cursor = if length rows == limit then encode (last_id rows) else "";
  }

  -- A cursor that does not decode is refused, which is `none`.
  abbrev pub decode_id_cursor : String → Option (Option ℕ)
  decode_id_cursor cursor =
      if is_empty cursor
      then some none
      else elim (decode cursor) [ none ↦ none | some n ↦ some (some n) ]

  -- The page of the cursor, by the rows that its query answers.
  abbrev pub page_at : Option (Option ℕ) → ℕ → (Option ℕ → List Event) → Option EventPage
  page_at none limit rows = none
  page_at (some c) limit rows = some (to_event_page (rows c) limit)

  -- For a monitor that the handler found to be the caller's, with a statement that answers. A limit
  -- of 0 has no last row: the source stops there.
  unfoldable pub list_events_by_monitor : ℕ → String → String → ℕ → Db → Option EventPage
  unfolding list_events_by_monitor_page
  list_events_by_monitor i event_type cursor limit db =
      page_at (decode_id_cursor cursor) limit
        (λ c. list_events_by_monitor_page i (text_or_null event_type) c limit db)

  -- Without a monitor, those of all monitors of the user.
  unfoldable pub list_events_by_user : ℕ → Option ℕ → String → String → ℕ → Db → Option EventPage
  unfolding list_events_by_user_page
  list_events_by_user user i event_type cursor limit db =
      page_at (decode_id_cursor cursor) limit
        (λ c. list_events_by_user_page user i (text_or_null event_type) c limit db)
