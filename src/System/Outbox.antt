-- ===== src/System/Outbox.antt =====
-- The promise of the outbox over every history.
use ping.Prelude.{List, [], ◌∷◌}
use ping.Db.{Db}
use ping.Store.{Conn}
use ping.Store.Promise.{IsOutbox}
use ping.Store.Checkin.Outcome.{record_checkin-IsOutbox}
use ping.Store.Scheduler.Outcome.{evaluate-IsOutbox}
use ping.Store.Prober.Outcome.{record_probe_result-IsOutbox}
use ping.Store.Events.Laws.{flags-IsOutbox}
use ping.Store.Events.Resume.{resume-IsOutbox}
use ping.Store.Monitors.Promise.{create-IsOutbox, update-IsOutbox, delete-IsOutbox, rollup-IsOutbox}
use ping.Store.Removal.{prune-IsOutbox}
use ping.Store.Rollup.{prune_batch_limit}
use ping.Worker.Alerter.Outbox.{tick-IsOutbox}
use ping.System.{
  Operation, wait, check_in, evaluate, probe, alert, pause, mute, unmute, resume, create, update,
  delete, rollup, prune, after, Turn, turn, history,
}

after-IsOutbox : (o : Operation) (c : Conn) → IsOutbox c.db → IsOutbox (after o c)
after-IsOutbox (wait now) c h = record { paired = h.paired; fresh = h.fresh; ordered = h.ordered }
after-IsOutbox (check_in z parse_addr p) c h = record_checkin-IsOutbox z parse_addr p c h
after-IsOutbox (evaluate now limit locked) c h = evaluate-IsOutbox now limit locked c h
after-IsOutbox (probe wall o) c h = record_probe_result-IsOutbox wall o c h
after-IsOutbox (alert cancelled has_channel base_url locked w) c h =
    tick-IsOutbox cancelled has_channel base_url locked (record w { conn = c }) h
after-IsOutbox (pause id user) c h = (flags-IsOutbox id user c h).0
after-IsOutbox (mute id user) c h = (flags-IsOutbox id user c h).1
after-IsOutbox (unmute id user) c h = (flags-IsOutbox id user c h).2
after-IsOutbox (resume z id user now) c h = resume-IsOutbox z id user now c h
after-IsOutbox (create p draw) c h = create-IsOutbox p draw c h
after-IsOutbox (update id user p) c h = update-IsOutbox id user p c h
after-IsOutbox (delete id user) c h = delete-IsOutbox id user c h
after-IsOutbox (rollup percentile visit day) c h = rollup-IsOutbox percentile visit day c h
after-IsOutbox (prune cancelled fuel cutoff) c h =
    prune-IsOutbox cancelled prune_batch_limit fuel cutoff c h

-- Whatever the ingest, the workers and the handlers of monitors do, and whatever statements fail,
-- each event of the timeline that owes a notification has one alert, about the same monitor and in
-- the same order, and no other alert but a reminder exists.
pub history-IsOutbox : (ts : List Turn) (db : Db) → IsOutbox db → IsOutbox (history ts db)
unfolding history
history-IsOutbox [] db h = h
history-IsOutbox (t ∷ ts) db h =
    history-IsOutbox ts (turn t db)
      (after-IsOutbox t.operation (record { db = db; fault = t.fault; step = 0 }) h)
