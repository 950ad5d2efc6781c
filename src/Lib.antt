-- ===== src/Lib.antt =====
-- OverVPN is a control plane for VPN access: a panel (apps/api) that keeps users, plans and inbounds
-- in a database, workers that account traffic and enforce limits, and an agent (apps/agent) on each
-- proxy node that applies the configurations of the cores.
--
-- The parts and the files that model them:
--
-- Base: numbers, texts (lists of UTF-16 code units), maps in insertion order, signed integers for
-- `bigint`, and calls that return or throw.
--
-- Schema: the enumerations of packages/shared/src/constants.ts and the user row of
-- apps/api/prisma/schema.prisma. A date is its number of milliseconds since 1970.
--
-- Calendar: the language's UTC dates from 1970 on, which the resets use: `civil` reads a date, `utc`
-- is Date.UTC, and Calendar/Laws relates them. The fuel of the search for a year is the number of
-- days since 1970 and one more; a year has at least one day, so the search ends before it.
--
-- UserDomain: apps/api/src/users/user-domain.ts. `normalize_user_status` and
-- `calculate_next_reset_at` are its functions of these names.
--
-- Accounting: apps/api/src/workers/traffic-accounting.ts. `parse_nonnegative_int64`,
-- `checked_byte_sum` and `compute_traffic_delta` are parseNonnegativeInt64, checkedByteSum and
-- computeTrafficDelta. The platform's hash function is a parameter. Accounting/Billing is a
-- specification: a core with counters that may start again at any time, polled at any time.
--
-- Collector: apps/api/src/workers/traffic-collector.service.ts. `persist_snapshot` (Collector/Transaction) is the
-- transaction (its loop `account_counters`, then `apply_deltas`), `parse_counters` the parsing of a
-- snapshot, `run_once` a whole run. The database is a record of tables; a transaction that throws
-- leaves it as it was; the answers of the lock and of the core are arguments.
--
-- Enforcement: apps/api/src/workers/limit-enforcement.ts, function by function; Enforcement/Devices
-- is about the devices that it counts, Enforcement/Policy about the status that it gives.
--
-- Enforcer: apps/api/src/workers/limit-enforcer.service.ts. `updated_user` is the row that the loop
-- writes for a user, `enforce_user` the loop's body, `enforce_limits` the transaction, and
-- Enforcer/Run the whole run. The application of the configuration, which the run calls after the
-- transaction, is a parameter that may change the database, return any status or throw.
--
-- Agent: apps/agent/src/core/apply.ts, reload.ts and filesystem.ts. `apply_engine` is applyEngine, with
-- `install` its try block, `recover` and `roll_back` its catch block; `request_reload` asks the reload
-- sidecar and waits for it; Agent/Service has the loops over the engines. The answers of the file
-- system and what the sidecar writes are part of the world that the calls pass on; an operation may
-- fail before or after its effect. The wait reads as often as its list of readings is long.
-- Agent/Panel is apps/agent/src/panel/loop.ts: `tick` is the tick of PanelLoop, `start_loop` and `stop` its
-- start and stop, and `fire` the end of the timer that `schedule` sets. The loop applies desired states
-- with Agent/Service; what else may use the service meanwhile is left out.
--
-- Lock: apps/api/src/core/distributed-lock.ts. `set_nx`, `renew_script` and `release_script` are what
-- the server does, `Step` the steps of all processes and of time in any order, `try_with_lock`
-- tryWithLock, with the renewals and assertions of an operation as a list.
--
-- Authorization: apps/api/src/common/authorization.ts. `authenticate` is JwtAuthenticationGuard,
-- `roles_guard` RolesGuard, `authorize` both in the order in which they stand.
--
-- RateLimit: apps/api/src/subscriptions/subscription-rate-limit.ts. `run_script` is the script,
-- `consume` the store's method.
--
-- Auth: apps/api/src/auth/auth.service.ts. Auth/Login has login and logout, Auth/Refresh the rotation
-- of refresh tokens (`refresh_current` is its transaction after the reading of the token), Auth/Totp
-- the second factor. Passwords, ciphers, one-time codes and random values come from the platform: they
-- are parameters and arguments. Auth/Families is the system of all requests: each transaction's writes
-- take effect at once, and a rotation may work on a token that it read at any earlier time.
--
-- DailyUsage: apps/api/src/workers/daily-usage-aggregator.service.ts. `aggregate` is the transaction,
-- with `group_deltas` its first loop and `upsert_all` its second; `run_once` is runOnce.
--
-- OnlineSessions: apps/api/src/workers/online-session-collector.service.ts and
-- online-session-sweeper.service.ts. `collect` is the transaction of the collector, with
-- `collect_clients` its loop, `sweep` that of the sweeper; OnlineSessions/Run and OnlineSessions/Sweep
-- have the runs. The snapshot of the cores is an argument.
--
-- CoreApply: apps/api/src/core/core-apply.service.ts. CoreApply/Engine has applyEngine and the loop over
-- the engines, CoreApply/Local the rest of applyLocal (`conclude` is what follows the loop, `commit` its
-- transaction), CoreApply/Remote applyViaAgent, CoreApply/System apply and applySystem, and
-- CoreApply/Verdict the functions that sum outcomes up. What the loader of states, the providers, the lock
-- and the agent answer is an argument, and so is what other requests do to the marks until the end.
--
-- PlanSync: apps/api/src/inbounds/plan-assignment-sync.service.ts. `sync_user` is syncUserToInboundIds,
-- with `disable_rest` and `enable_wanted` its loops, and `mark_assignment_changed` what follows each
-- change. Credentials and the ids of new rows are arguments.
--
-- Users: apps/api/src/users/users.service.ts. Users/Save has create, update, remove and
-- rotateSubscription, Users/Bulk bulk and bulkUpdate; `retry` is the loop of five attempts, and its
-- fuel is that number. A transaction passes the users' marks to PlanSync and takes them back
-- (`sync_db`, `with_sync`). The draws of an attempt, the time and the order of the rows are arguments.
-- Users/Settled is about the bulk actions beside Enforcement: both derive a status from the same row.
--
-- Not modelled: the health records, audit records, notifications and log lines, which the modelled
-- operations only write; the generators of core configurations and the profiles of subscriptions
-- (apps/api/src/core/*.provider.ts, subscriptions), which build documents for other programs; the
-- schemas of packages/shared/src/schemas.ts, which are declarations for a validation library, beyond the
-- requests that Users and Agent take; the changes of plans, inbounds and nodes (plans, inbounds,
-- proxy-servers, agent of apps/api/src); the check for updates, which is network access; the web interface
-- (apps/web); scripts, migrations and deployment files.
pub mod Base
pub mod Accounting
pub mod Calendar
pub mod UserDomain
pub mod Users
pub mod Enforcement
pub mod Enforcer
pub mod Agent
pub mod Lock
pub mod Authorization
pub mod RateLimit
pub mod Auth
pub mod DailyUsage
pub mod CoreApply
pub mod OnlineSessions
pub mod PlanSync
pub mod Schema
pub mod Collector
