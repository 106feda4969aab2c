-- ===== src/Alert.antt =====
-- backend/alert/channel.go, and the Notification of template.go: what a channel is given, and how
-- its failures are classed. The text that Render makes of a notification is left out: a channel
-- is given the notification itself and the recipient.
use ping.Prelude.{String, Bool, false}
use ping.Schedule.{Instant, Duration}

pub data NotificationKind : Type 0 where
  down up reminder tls_expiry : NotificationKind

pub record Notification : Type 0 where
  pub kind : NotificationKind
  pub monitor_name : String
  pub monitor_slug : String
  pub at : Instant
  pub downtime : Duration
  pub tls_expires_at : Instant
  pub dashboard_url : String

pub record Message : Type 0 where
  pub to : String
  pub notification : Notification

-- ErrNotConfigured, a SendError with its field Retryable, and any other error.
pub data SendFailure : Type 0 where
  not_configured : SendFailure
  send_error : Bool → SendFailure
  unclassified : SendFailure

abbrev pub is_retryable : SendFailure → Bool
is_retryable (send_error retryable) = retryable
is_retryable _ = false
