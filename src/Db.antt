-- ===== src/Db.antt =====
-- backend/db: the tables of the database and the statements that sqlc generates from its queries
-- (backend/db/*.sql.go, with the SQL text that they hold). A statement is a function of the tables;
-- a row is a record with the columns of backend/db/models.go. A UUID is a number, a nullable
-- column an `Option`, a timestamp an instant, a JSON document a value of `Meta`. The column
-- `status`, `state` and the like hold the words that the CHECK constraints of the migrations allow.
pub mod Result
pub mod Sort
pub mod Monitors
pub mod Checkins
pub mod Outbox
pub mod Probes
pub mod Samples
pub mod Keys
pub mod Batches
pub mod Stats
pub mod Edits
pub mod ApiKeys
use ping.Prelude.{ℕ, String, Bool, Option, List, ◌==◌, find, is_some}
use ping.Prelude.Int.{ℤ}
use ping.Schedule.{Instant, Kind}

pub data State : Type 0 where
  new up late down : State

pub data MonitorKind : Type 0 where
  heartbeat http : MonitorKind

pub record Monitor : Type 0 where
  pub id : ℕ
  pub user_id : ℕ
  pub kind : MonitorKind
  pub slug : String
  pub name : String
  pub schedule_kind : Option Kind
  pub period_s : Option ℤ
  pub cron_expr : Option String
  pub tz : String
  pub grace_s : Option ℤ
  pub url : Option String
  pub method : Option String
  pub interval_s : Option ℤ
  pub timeout_s : Option ℤ
  pub fail_threshold : Option ℤ
  pub http_config : String
  pub state : State
  pub fail_streak : ℤ
  pub last_checkin_at : Option Instant
  pub next_deadline : Option Instant
  pub next_probe_at : Option Instant
  pub alerts_muted : Bool
  pub paused_at : Option Instant
  pub created_at : Instant
  pub updated_at : Instant
  pub auto_resume : Bool
  pub reminder_every_s : ℕ
  pub tls_warned_expires_at : Option Instant

-- The kind of a ping. `unknown` is any word that the CHECK constraint does not allow.
pub data CheckinKind : Type 0 where
  success start fail : CheckinKind
  unknown : String → CheckinKind

pub record Checkin : Type 0 where
  pub id : ℕ
  pub monitor_id : ℕ
  pub kind : CheckinKind
  pub source_ip : Option String
  pub user_agent : Option String
  pub body : Option String
  pub created_at : Instant

pub data EventType : Type 0 where
  up down late tls_expiry alert_failed config_change pause resume mute unmute : EventType

-- The JSON payload of an event: `{}`, the expiry of a certificate, or the fields of a PATCH.
pub data Meta : Type 0 where
  empty : Meta
  tls_expires_at : Instant → Meta
  fields : List String → Meta

-- The text of an event; that of a certificate names its expiry in RFC 3339.
pub data Message : Type 0 where
  text : String → Message
  tls_certificate_expires : Instant → Message

pub record Event : Type 0 where
  pub id : ℕ
  pub monitor_id : ℕ
  pub type : EventType
  pub message : Message
  pub meta : Meta
  pub created_at : Instant

pub data AlertStatus : Type 0 where
  pending sent failed : AlertStatus

pub record Alert : Type 0 where
  pub id : ℕ
  pub monitor_id : ℕ
  pub event_id : ℕ
  pub channel : String
  pub status : AlertStatus
  pub attempts : ℕ
  pub next_attempt_at : Instant
  pub sent_at : Option Instant
  pub created_at : Instant
  pub is_reminder : Bool

pub record ProbeResult : Type 0 where
  pub id : ℕ
  pub monitor_id : ℕ
  pub ok : Bool
  pub http_status : Option ℤ
  pub latency_ms : Option ℤ
  pub error : Option String
  pub tls_expires_at : Option Instant
  pub created_at : Instant

-- A row of the daily statistics: `day` is the midnight that the day begins with.
pub record DailyStat : Type 0 where
  pub monitor_id : ℕ
  pub day : Instant
  pub checkins : ℕ
  pub failures : ℕ
  pub downtime_s : ℕ
  pub latency_p50 : Option ℤ
  pub latency_p95 : Option ℤ

pub record User : Type 0 where
  pub id : ℕ
  pub email : String

pub record ApiKey : Type 0 where
  pub id : ℕ
  pub user_id : ℕ
  pub key_hash : String
  pub label : String
  pub last_used_at : Option Instant
  pub revoked_at : Option Instant
  pub created_at : Instant

-- The tables, the next value of each BIGSERIAL column, and SQL's now().
pub record Db : Type 0 where
  pub users : List User
  pub monitors : List Monitor
  pub checkins : List Checkin
  pub events : List Event
  pub alerts : List Alert
  pub probe_results : List ProbeResult
  pub daily_stats : List DailyStat
  pub api_keys : List ApiKey
  pub next_checkin_id : ℕ
  pub next_event_id : ℕ
  pub next_alert_id : ℕ
  pub next_probe_id : ℕ
  pub now : Instant

abbrev pub has_id : ℕ → Monitor → Bool
has_id i m = m.id == i

-- Whether a row that refers to this monitor keeps the foreign key.
abbrev pub has_monitor : ℕ → Db → Bool
has_monitor i db = is_some (find (has_id i) db.monitors)
