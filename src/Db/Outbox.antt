-- ===== src/Db/Outbox.antt =====
-- backend/db/events.sql.go and alerts.sql.go: the timeline, and the outbox of alerts. The joins of
-- ClaimDueAlerts drop an alert with no monitor, user or event.
use ping.Prelude.{
  ℕ, ◌+◌, ◌*◌, String, Bool, true, false, not, ◌&&◌, Option, none, some, List, [], ◌∷◌, ◌++◌, ltb,
  leb, ◌==◌, if◌then◌else◌, find, select, take, update_where, is_some, is_none,
}
use ping.Schedule.{Instant, second}
use ping.Db.{
  Db, Monitor, User, Event, EventType, Meta, Message, Alert, AlertStatus, pending, sent, failed,
  State, has_id, has_monitor,
}
use ping.Db.Result.{Result, ok, err, foreign_key_violation}
use ping.Db.Sort.{sort_by}

unfoldable pub insert_event : ℕ → EventType → Message → Meta → Db → Result (Event × Db)
insert_event monitor_id type message meta db =
    let row : Event = record {
      id = db.next_event_id;
      monitor_id = monitor_id;
      type = type;
      message = message;
      meta = meta;
      created_at = db.now;
    } in
    if has_monitor monitor_id db
    then ok
        (row, record db { events = db.events ++ row ∷ []; next_event_id = db.next_event_id + 1 })
    else err foreign_key_violation

abbrev pub has_event_id : ℕ → Event → Bool
has_event_id i e = e.id == i

abbrev alert_row : ℕ → ℕ → String → Bool → Db → Alert
alert_row monitor_id event_id channel is_reminder db = record {
  id = db.next_alert_id;
  monitor_id = monitor_id;
  event_id = event_id;
  channel = channel;
  status = pending;
  attempts = 0;
  next_attempt_at = db.now;
  sent_at = none;
  created_at = db.now;
  is_reminder = is_reminder;
}

abbrev with_alert : Alert → Db → Db
with_alert a db = record db { alerts = db.alerts ++ a ∷ []; next_alert_id = db.next_alert_id + 1 }

unfoldable pub insert_alert : ℕ → ℕ → String → Db → Result (Alert × Db)
insert_alert monitor_id event_id channel db =
    let row = alert_row monitor_id event_id channel false db in
    if has_monitor monitor_id db && is_some (find (has_event_id event_id) db.events)
    then ok (row, with_alert row db)
    else err foreign_key_violation

-- A row of ClaimDueAlerts: the alert, and what one send needs of its monitor, user and event.
pub record ClaimDueAlertsRow : Type 0 where
  pub alert : Alert
  pub recipient : String
  pub monitor_name : String
  pub monitor_slug : String
  pub monitor_state : State
  pub alerts_muted : Bool
  pub event_type : EventType
  pub event_created_at : Instant
  pub event_meta : Meta

abbrev has_user_id : ℕ → User → Bool
has_user_id i u = u.id == i

abbrev joined_row : Alert → Monitor → User → Event → ClaimDueAlertsRow
joined_row a m u e = record {
  alert = a;
  recipient = u.email;
  monitor_name = m.name;
  monitor_slug = m.slug;
  monitor_state = m.state;
  alerts_muted = m.alerts_muted;
  event_type = e.type;
  event_created_at = e.created_at;
  event_meta = e.meta;
}

-- The three joins, for one alert.
pub join : Db → Alert → Option ClaimDueAlertsRow
join db a = elim (find (has_id a.monitor_id) db.monitors) [
  | none ↦ none
  | some m ↦ elim (find (has_user_id m.user_id) db.users) [
    | none ↦ none
    | some u ↦ elim (find (has_event_id a.event_id) db.events) [
      | none ↦ none
      | some e ↦ some (joined_row a m u e)
    ]
  ]
]

abbrev pub is_pending : AlertStatus → Bool
is_pending pending = true
is_pending _ = false

-- `locked` are the alerts that other transactions hold: SKIP LOCKED passes them over.
pub is_due_alert : Instant → (ℕ → Bool) → Alert → Bool
is_due_alert now locked a = is_pending a.status && ltb a.next_attempt_at now && not (locked a.id)

abbrev keep_joined : Option ClaimDueAlertsRow → List ClaimDueAlertsRow → List ClaimDueAlertsRow
keep_joined none rows = rows
keep_joined (some r) rows = r ∷ rows

pub join_all : Db → List Alert → List ClaimDueAlertsRow
join_all db [] = []
join_all db (a ∷ as') = keep_joined (join db a) (join_all db as')

unfoldable pub claim_due_alerts : Instant → ℕ → (ℕ → Bool) → Db → List ClaimDueAlertsRow
unfolding join_all join is_due_alert
claim_due_alerts now limit locked db = take limit (
    sort_by (λ r. r.alert.next_attempt_at)
      (join_all db (select (is_due_alert now locked) db.alerts)))

abbrev pub is_down_event : EventType → Bool
is_down_event EventType.down = true
is_down_event _ = false

abbrev pub is_down_of : ℕ → Event → Bool
is_down_of i e = e.monitor_id == i && is_down_event e.type

abbrev later_of : Event → Option Event → Option Event
later_of e none = some e
later_of e (some f) = if ltb e.created_at f.created_at then some f else some e

-- ORDER BY created_at DESC LIMIT 1.
pub latest : List Event → Option Event
latest [] = none
latest (e ∷ es) = later_of e (latest es)

abbrev is_down_state : State → Bool
is_down_state State.down = true
is_down_state _ = false

-- An alert of the monitor within its cadence.
abbrev is_recent_alert : Instant → Monitor → Alert → Bool
is_recent_alert now m a =
    a.monitor_id == m.id && ltb now (a.created_at + m.reminder_every_s * second)

pub wants_reminder : Instant → Monitor → List Alert → Bool
wants_reminder now m alerts =
    is_down_state m.state
    && not m.alerts_muted
    && ltb 0 m.reminder_every_s
    && is_none (find (is_recent_alert now m) alerts)

abbrev pub default_channel : String
default_channel = "default"

abbrev pub remind_of : ℕ → Option Event → Db → Db
remind_of i none db = db
remind_of i (some e) db = with_alert (alert_row i e.id default_channel true db) db

-- The rows that the statement inserts, one for each monitor: `seen` are the alerts that it reads.
unfoldable pub remind_all : Instant → List Alert → List Monitor → Db → Db
remind_all now seen [] db = db
remind_all now seen (m ∷ ms) db = remind_all now seen ms (
    if wants_reminder now m seen
    then remind_of m.id (latest (select (is_down_of m.id) db.events)) db
    else db)

unfoldable pub enqueue_down_reminders : Instant → Db → Db
unfolding remind_all wants_reminder latest
enqueue_down_reminders now db = remind_all now db.alerts db.monitors db

abbrev is_before : Instant → ℕ → Event → Bool
is_before t i e = is_down_of i e && leb e.created_at t

unfoldable pub latest_down_event_before : ℕ → Instant → Db → Option Event
unfolding latest
latest_down_event_before i t db = latest (select (is_before t i) db.events)

abbrev pub has_alert_id : ℕ → Alert → Bool
has_alert_id i a = a.id == i

-- An UPDATE of the alert with this id.
abbrev set_alert : ℕ → (Alert → Alert) → Db → Db
set_alert i f db = record db { alerts = update_where (has_alert_id i) f db.alerts }

unfoldable pub mark_alert_failed : ℕ → Db → Db
mark_alert_failed i = set_alert i (λ a. record a { status = failed; attempts = a.attempts + 1 })

unfoldable pub mark_alert_sent : ℕ → Db → Db
mark_alert_sent i db =
    set_alert i (λ a. record a { status = sent; sent_at = some db.now; attempts = a.attempts + 1 })
      db

unfoldable pub reschedule_alert : ℕ → Instant → Db → Db
reschedule_alert i next_attempt_at =
    set_alert i (λ a. record a { attempts = a.attempts + 1; next_attempt_at = next_attempt_at })

unfoldable pub suppress_alert : ℕ → Db → Db
suppress_alert i = set_alert i (λ a. record a { status = sent })
