-- ===== src/Lib.antt =====
-- The gateway to Telegram accounts: model and theorems for the Go code under internal/.
--
-- A gateway (internal/router) takes HTTP requests, checks their token and forwards those of a session
-- to the worker that owns it; the owner is a row of a Postgres registry (internal/store). A worker
-- (internal/api over internal/session) claims sessions, logs them in, lets a call out to Telegram when
-- no cooldown, no operator's rule (internal/quota) and no write pace holds it back, learns from
-- Telegram's answer, follows the messages it sends, and queues updates for the receivers that
-- subscribed to them. Files to send lie on a shared volume (internal/upload).
--
-- The files and the code that they model:
--   Prelude and its children: texts, numbers, lists and maps that the parts share.
--   Tdjson: internal/tdjson/raw.go, TDLib's errors and the wait that they ask for.
--   Store/Limits, Store/RateLimits, Store/Counters: internal/store/limits.go, the rules and what
--     they count. A transaction is run on the table, its statements and its commit failing as a
--     schedule says.
--   Store/Cooldowns, Store/Deliveries, Store/Sends, Store/Subscriptions, Store/Tokens,
--     Store/Workers: internal/store/store.go, a table or two each. A statement is a function of the
--     rows.
--   Quota/Methods, Quota/Window, Quota/Rules: internal/quota/quota.go.
--   Session/Limits: internal/session/limits.go, takeQuota and its release.
--   Session/Guard, Session/Observe, Session/Admit: internal/session/guard.go.
--   Session/Json: the trees of JSON that a request and an update are decoded to.
--   Session/LocalFiles, Session/Peers, Session/Calls: the steps of Call in
--     internal/session/manager.go: confinement of local files, the peer that a request names,
--     admission, the request to TDLib and what is done with its answer.
--   Session/Sent: internal/session/uploads.go and sends.go, the messages on their way.
--   Session/Live, Session/Login: a session's login, internal/session/authorizer.go and the submit,
--     resend and wait of internal/session/manager.go.
--   Session/Reconcile, Session/Balance: a worker's claims, fences and releases of sessions,
--     internal/session/manager.go.
--   Session/Subs: internal/session/subs.go. Session/Deliver: internal/session/deliver.go.
--   Api: the call handler and the answers to errors of internal/api/server.go.
--   Router and Router/Paths: internal/router/router.go and isFilesPath of internal/router/files.go.
--   Router/Limits, Router/LimitHandlers: internal/router/limits.go.
--   Upload, Upload/Names, Upload/Inside: internal/upload/store.go.
--   Examples: the code on concrete inputs.
-- A child of these that is not named here holds theorems about its parent.
--
-- Conventions. A handler is one function from the state it meets to the state it leaves and its
-- answer. What it gets from outside is an argument: the clock, the answers of Telegram, the random
-- ids, the failures of statements and system calls, SHA-256 and url.Parse. Times are nanoseconds since
-- Go's zero time, as natural numbers; `add_seconds` keeps the wrap-around of a 64-bit duration. Postgres
-- keeps microseconds, which is written out for the ends of cooldowns, since these are compared with
-- the guard's. Go maps and tables are lists of rows; a missing key is written out as the code treats it.
-- The cleanups of a failed upload go through; a removal that was asked for may fail. Every recursion
-- is on a list, a tree or a text, so no function needs fuel.
--
-- Not modelled: the handlers of internal/api that only decode a body and call the manager, the
-- bindings of TDLib, the registration of an account (the parts of CreateUser and CreateBot that write
-- the registry), the proxies of a session, internal/session/downloads.go, myLimits of
-- internal/router/limits.go, the handlers of internal/router/files.go, the migrations, the secret box
-- (internal/secret) and telemetry (internal/obs). Locks are left out: a critical section is one step.
mod Prelude
pub mod Tdjson
pub mod Router
pub mod Upload
pub mod Store
pub mod Quota
pub mod Session
pub mod Api
pub mod Examples
