-- ===== src/Server/Monitors/Handlers.antt =====
-- backend/server/monitor.go: the handlers that create, change and delete a monitor, over the store.
-- The body of the request is decoded already; an answer is the row that the response is made of, or
-- the field that is refused.
pub mod Access
pub mod Schedules
use ping.Prelude.{ℕ}
use ping.Schedule.{Zones}
use ping.Db.{Monitor}
use ping.Store.{Op, pure, ◌>>=◌, ◌>>◌}
use ping.Store.Monitors.{Draw, create_monitor, get_monitor, update_monitor, delete_monitor}
use ping.Server.Monitors.{
  UpdateMonitorRequest, Checked, accepted, refused, Formats, validate_update,
}
use ping.Server.Monitors.Creation.{CreateMonitorRequest, validate_create}

abbrev pub unless_refused : {P A : Type 0} → Checked P → (P → Op A) → Op (Checked A)
unless_refused (refused e) f = pure (refused e)
unless_refused (accepted p) f = f p >>= λ a. pure (accepted a)

module _ (z : Zones) (formats : Formats) where
  unfoldable pub handle_create : ℕ → CreateMonitorRequest → (ℕ → Draw) → Op (Checked Monitor)
  handle_create user req draw =
      unless_refused (validate_create z formats user req) (λ p. create_monitor p draw)

  unfoldable pub handle_update : ℕ → ℕ → UpdateMonitorRequest → Op (Checked Monitor)
  handle_update id user req = do
    existing ← get_monitor id user
    unless_refused (validate_update z formats existing req) (update_monitor id user)

unfoldable pub handle_delete : ℕ → ℕ → Op (Unit {0})
handle_delete id user = get_monitor id user >>= λ existing. delete_monitor id user
