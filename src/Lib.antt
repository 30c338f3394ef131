-- ===== src/Lib.antt =====
-- The uptime monitor's Go service: each monitored site is checked by a loop, the result is recorded in
-- that site's database, and the transition that the recording reports is handed to the alert
-- dispatcher, which claims each alert in the registry database before it mails it. The HTTP API reads
-- both databases and writes the registry, keeps the scheduler's loops in step with it, and is guarded
-- by an API key, by login sessions and by a limiter of login attempts. cmd/monitor puts them together.
--
-- Parts, and the files that model them:
-- - Base: shared names; tests on numbers, lists, integers (Go's int where it may be negative), texts,
--   maps as association lists, and the numerals of package fmt.
-- - Db: internal/storage/sqlite.go and the use of database/sql. An action is a function on the tables
--   and on a script of faults: the engine may refuse any statement. `transaction` is Begin to Commit
--   with the deferred Rollback. Runs, Refuses, Ensures and Answers are the rules by which operations are
--   verified statement by statement, and Hoare the rules for what they keep. Row ids are those of any
--   engine that gives ids above the ones in use (`Sqlite`). Migrations: internal/storage/migrate.go,
--   over the log of the statements that ran.
-- - Config: internal/config/config.go (ApplyDefaults, Validate, Host, Slugify). url.Parse and the
--   Unicode tables are parameters.
-- - Site.Tables, Site.Tick: internal/storage/site.go and tick.go (RecordTick, statement by statement).
--   Site.Query: internal/storage/query.go. Site.Series: internal/storage/series.go.
-- - Registry: internal/storage/registry.go, admin.go, session.go and alerts.go, one module for each
--   table; the JSON of a site's checks is a parameter.
-- - Stores: internal/storage/manager.go; the data directory is a map from paths to tables.
--   Overview: internal/storage/overview.go.
-- - Auth: internal/auth/ratelimit.go (Limiter); time is a number of nanoseconds.
-- - Alerts: internal/alerts/alerts.go. Message is kindsFor and render, Dispatcher is applyRule, deliver
--   and the queue. The sender is a script of attempts. Smtp: internal/alerts/smtp.go, the message;
--   Smtp.Exchange is Send, as a list of commands with whether the connection was encrypted.
-- - Checker: internal/checker/checker.go (RunTick and its checks). The network's answers are an argument.
-- - Scheduler: internal/scheduler/scheduler.go. A goroutine is an entry of a list, and `Move` the steps
--   that callers and goroutines take in any order; a `select` may take any case that is ready, also a
--   tick after its context is done. Loop is runSite.
-- - Api: internal/api. Gates and Params are the gates and parameters of api.go, Login is auth.go, Sites
--   and Data are the handlers of api.go, Channels and Rules those of alerts.go, Caller the client
--   addresses and CORS, Routes the route table. A body is what its JSON decodes to, an answer the value
--   that is written. bcrypt, SHA-256, net/mail and the mail transport are parameters.
-- - Monitor: cmd/monitor/main.go and adminuser.go, up to the first request.
-- - Samples: concrete values for the tests, which stand in the Tests module of each part.
--
-- Choices: times are natural numbers; the clock is read once for an event, a tick's result or a request.
-- Loops are structural: `deliver_from` runs on the retries that are left, `groups` and `blanks` on the
-- buckets that are left, and `decimal` on twenty digits, enough for 64 bits. Counters are not bounded by
-- 64 bits; the durations of the scheduler and of the certificate warning are. Averages and percentages are in hundredths by the exact quotient. The mutexes
-- and the transactions of SQLite make each operation one step. Texts of errors that only reach a log are
-- left out.
--
-- Not modelled: the protocols below net/http, net/smtp and crypto/tls, the listener, signals and flags of
-- cmd/monitor, the attributes of cookies, the goroutines of the dispatcher, and the web front end.
pub mod Base
pub mod Db
pub mod Config
pub mod Site
pub mod Auth
pub mod Registry
pub mod Alerts
pub mod Checker
pub mod Api
pub mod Stores
pub mod Overview
pub mod Scheduler
pub mod Monitor
pub mod Samples
