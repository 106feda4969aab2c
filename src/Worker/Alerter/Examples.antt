-- ===== src/Worker/Alerter/Examples.antt =====
-- A tick over an outbox with one alert.
use ping.Prelude.{List, find, arith, ℕ, ◌+◌, ◌*◌, ◌≡◌, refl, Bool, true, false, none, some, [], ◌∷◌}
use ping.Schedule.{hour}
use ping.Db.{State, has_monitor, Db, Event, EventType, text, empty, Alert, pending}
use ping.Db.Samples.{quiet}
use ping.Alert.{send_error}
use ping.Store.{calm}
use ping.Store.Alerter.{AlertJob}
use ping.Worker.Alerter.{World, dispatch}
use ping.Worker.Alerter.Sends.{Sent, dispatch_sends}
use ping.Worker.Alerter.Life.{deliver_all, alert_settled}
use ping.Db.Outbox.{has_alert_id, is_pending}

abbrev outage : Event
outage = record {
  id = 1;
  monitor_id = 1;
  type = EventType.down;
  message = text "Monitor reported failure";
  meta = empty;
  created_at = 100 * hour;
}

abbrev owed : Alert
owed = record {
  id = 1;
  monitor_id = 1;
  event_id = 1;
  channel = "default";
  status = pending;
  attempts = 0;
  next_attempt_at = 100 * hour;
  sent_at = none;
  created_at = 100 * hour;
  is_reminder = false;
}

abbrev paging : Db
paging = record quiet {
  events = outage ∷ [];
  alerts = owed ∷ [];
  next_event_id = 2;
  next_alert_id = 2;
}

-- The mail server does not answer.
abbrev world : World
world = record {
  conn = calm paging;
  clock = λ n. 101 * hour + n;
  readings = 0;
  answer = λ n. some (send_error true);
  outgoing = [];
}

abbrev free : ℕ → Bool
free i = false

abbrev job : AlertJob
job = record {
  id = 1;
  monitor_id = 1;
  event_id = 1;
  recipient = "a@b.c";
  monitor_name = "backup";
  monitor_slug = "abc";
  monitor_state = State.down;
  alerts_muted = false;
  event_type = EventType.down;
  is_reminder = false;
  event_at = 100 * hour;
  tls_expires_at = none;
  attempts = 0;
}

dispatch_sends_example :
    (false ≡ true → (dispatch true "" job world).outgoing ≡ [])
    × (true ≡ false → (dispatch true "" job world).outgoing ≡ [])
    × Sent job world (dispatch true "" job world)
dispatch_sends_example = dispatch_sends true "" job world

found : find (has_alert_id 1) paging.alerts ≡ some owed
unfolding find
found = refl

here : has_monitor 1 paging ≡ true
unfolding find
here = refl

-- The second delivery finds the monitor muted, the others do not.
abbrev jobs : List AlertJob
jobs = job ∷ record job { alerts_muted = true } ∷ job ∷ []

alert_settled_example :
    (a' : Alert) × (find (has_alert_id 1) (deliver_all true "" 1 jobs world).conn.db.alerts
      ≡ some a')
    × (is_pending a'.status ≡ false)
alert_settled_example =
    alert_settled true "" 1 jobs owed world found (λ n. refl) (here, (here, (here, tt)))
      (omega arith)
