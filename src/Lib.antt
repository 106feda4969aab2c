-- ===== src/Lib.antt =====
-- A model of ping, a service that watches cron jobs by their pings and sites by probes, and the
-- theorems that it keeps.
--
-- The backend is a Go server over Postgres, with Redis for its rate limits. Its parts share the
-- tables and meet nowhere else: the ingest records pings, the scheduler moves monitors whose deadline passes, the prober records
-- probes, and each of them writes the timeline of events and the outbox of alerts; the alerter
-- sends what the outbox holds.
--
-- Files:
-- - Prelude, and Prelude.Tests, Lists and Int below it: Boolean tests, lists and integers over the
--   native numbers; the int32 of a fail streak wraps (suc_int32).
-- - Schedule: backend/schedule/schedule.go and errors.go. Validate is `validate`, NextOccurrence
--   `next_occurrence`, NextDeadline `next_deadline`. time.LoadLocation and robfig/cron are the
--   parameter `Zones`. An instant is a number of nanoseconds, where 0 is Go's zero time; a duration
--   is an integer number of nanoseconds. Schedule.Text has what is used of Go's package strings.
-- - Db: the tables of backend/db/models.go as lists of records, in order of insertion, with the next
--   value of each sequence and SQL's now(). Db.Monitors, Db.Checkins, Db.Outbox and Db.Probes are the
--   statements of the files *.sql.go, each a function on the tables; SKIP LOCKED takes the rows that
--   others hold as the parameter `locked`. Db.Edits has the statements that create, change and delete
--   monitors, with ON DELETE CASCADE written out, Db.Batches the batches of deletions, and Db.Stats
--   the statements of daily_stats.sql.go, where PERCENTILE_CONT is the parameter `percentile` and a
--   day is the midnight that it begins with. Db.Keys is about rows with distinct ids, Db.Sort is
--   ORDER BY, and Db.Samples are tables for the examples.
-- - Store: backend/store/store.go. An operation is a function on a connection, each statement of
--   which may fail for the driver's reason, and `with_tx` is withTx. Store.Steps and Store.Tx are the
--   rules for the operations: what a successful run says, and what a failing driver can do.
--   Store.Timeline and Store.Promise are about the timeline and the outbox, Store.Keeps and
--   Store.Removal about operations that keep a predicate, and Store.Returns about runs without
--   faults.
-- - Store.Checkin: backend/store/checkin.go. RecordCheckin is `record_checkin`, applySuccess
--   `apply_success`, applyFail `apply_fail`, recordTransition `record_transition`.
-- - Store.Scheduler: backend/store/scheduler.go. EvaluateDueMonitors is `evaluate_due_monitors`.
-- - Store.Prober: backend/store/prober.go. RecordProbeResult is `record_probe_result`,
--   nextProbeState `next_probe_state`, maybeWarnTLSExpiry `maybe_warn_tls_expiry`.
-- - Store.Alerter: backend/store/alerter.go, each method under its name in snake case.
-- - Store.Events: backend/store/events.go. PauseMonitor, MuteMonitor, UnmuteMonitor and ResumeMonitor
--   under their names in snake case, flagMonitor as `flag_monitor`.
-- - Store.Pages: ListEventsByMonitor and ListEventsByUser of the same file and their queries. base64
--   and the decimal text of a cursor are the parameters `encode` and `decode`.
-- - Store.Rollup: backend/store/rollup.go. PruneOldData is `prune_old_data`, drainBatches
--   `drain_batches`, and ctx.Err the parameter `is_cancelled`. Store.Rollup.Day has RollupDay as
--   `rollup_day`; the map byMonitor is an association list, and the order in which Go visits it the
--   parameter `visit`.
-- - Store.Monitors: backend/store/monitor.go, and slug.go in Store.Monitors.Slug. CreateMonitor,
--   GetMonitor, UpdateMonitor and DeleteMonitor under their names in snake case; what an attempt
--   draws from crypto/rand, and the id that Postgres draws, is the parameter `draw`.
-- - Store.RateLimit: backend/store/ratelimit.go. Allow is `allow`; Redis is the parameter `redis`, a
--   state with INCR, EXPIRE and TTL, each of which may fail.
-- - Store.ApiKeys: backend/store/apikey.go over Db.ApiKeys, the statements of db/apikeys.sql.go.
--   CreateAPIKey, RevokeAPIKey and AuthenticateAPIKey under their names in snake case; SHA-256 is the
--   parameter `hash_token`.
-- - Store.Session: backend/store/session.go. RotateRefreshToken, RevokeFamilyByToken and
--   IssueRefreshToken are machines that make one statement at a step (`advance`), so that the
--   statements of several requests interleave (`interleave`).
-- - Alert: backend/alert/channel.go, and the Notification of template.go.
-- - Worker.Alerter: backend/worker/alerter/alerter.go. The world has the connection, the clock by
--   number of readings, and the channel by number of sends.
-- - Worker.Prober: backend/worker/prober/prober.go and probe.go. runProbe is `run_probe` on what the
--   HTTP client made of the request, and the outcome that probeOne records is `outcome_of`.
--   Worker.Prober.Guard is the guard of the connections, guardAddr `guard_addr`, resolveAndGuard
--   `resolve_and_guard`; Worker.Prober.Numbers and Worker.Prober.Ranges have the table of address
--   ranges.
-- - Worker.Rollup: backend/worker/rollup/rollup.go. New is `new`, tick `tick`, with the day that was
--   rolled up last as its state.
-- - Server.Monitors: the requests of backend/server/monitor.go and the validation of a PATCH,
--   validateUpdate as `validate_update`, mergeScheduleConfig as `merge_schedule_config`. url.Parse
--   and json.Valid are the parameter `Formats`. Server.Monitors.Creation has validateCreate, and
--   Server.Monitors.Handlers the methods create, update and delete of monitorHandler, as
--   `handle_create`, `handle_update` and `handle_delete`, on a request that is decoded already.
-- - Server.Checkin: backend/server/checkin.go. ingest is `ingest`, exitCode `exit_code` with Go's
--   strconv.Atoi as `atoi`. A body is bytes, and `decode` says which bytes are a text for Postgres.
-- - Server.Auth: backend/server/auth_middleware.go. requireAuth is `require_auth`,
--   requireAuthOrAPIKey `require_auth_or_api_key`, bearerToken `bearer_token`; the verification of a
--   JWT is the parameter `parse_access_token`.
-- - System: the operations of the ingest, of the workers and of the handlers of monitors as the turns
--   of one history over the tables, each with the statements that fail in it.
--
-- Bounds: ids, attempts and limits are natural numbers, as the columns that hold them do not reach
-- their limits; fail_streak is an int32. The loops of the code run over lists; the reader of the
-- pages (`follow`) and the loop of the retention (`drain_batches`) have fuel, and their theorems say
-- how much is enough: one batch more than there are full ones. UUIDs are numbers, and their
-- parsing is left out.
--
-- Not modelled: the lists of monitors and of their statistics, the logs of pings and probes, and the
-- preview of a schedule, which are read only; the sessions' handlers and the routing of the HTTP
-- server, and users; the templates and the SMTP dialogue; the timers of the loops, the configuration,
-- the commands and the frontend.
pub mod Prelude
pub mod Schedule
pub mod Db
pub mod Store
pub mod Alert
pub mod Worker
pub mod Server
pub mod System
