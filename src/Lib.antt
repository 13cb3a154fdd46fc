-- ===== src/Lib.antt =====
-- Hegira: a verification of the parts of the repository that decide who is let in, how often, and
-- what is done exactly once.
--
-- The program is a workspace of libraries for web applications (crates/), an identity module
-- (modules/identity) and the tools that generate applications. Modelled here are five parts. When
-- an application starts, the migrations of its modules are composed into a plan, with which the
-- history of the database is compared. A request first meets the rate limiter, which finds the
-- client's address and counts its requests. The services of the identity module then work on the
-- tables of users, sessions, roles and connections; in the same transaction they leave mails and
-- changes of the search index in the outbox. The worker takes messages from the outbox and hands
-- them to their handlers, of which one brings the changes to the search index.
--
-- Base: names of the libraries, tests, lists, results and texts. Base/Actions.antt has the actions:
-- functions of what a method only reads and of what it changes, with do blocks; what was changed
-- before an error stays changed, and a transaction puts its tables back. Base/Keeps.antt has the
-- rules by which actions keep an invariant.
--
-- RateLimit (crates/http_support/src/rate_limit.rs). Memory.antt is `MemoryRateLimiter::check` on
-- the map of clients, an association list; Memory/Ledger.antt describes independently which
-- requests of a run were admitted, and Memory/Clients, Window and Quota compare the two.
-- Resolver.antt is `ClientIpResolver`, with the parsing and the containment of addresses and
-- networks as the parameter `IpLibrary`. Middleware.antt is `RateLimiter::from_options` and
-- `check_with_limiter`; the Redis backend is a parameter, since its script runs in Redis.
--
-- Jobs (crates/background_jobs/src/lib.rs and src/sqlx/sqlite.rs in that crate). Outbox.antt has the
-- tables and the SQL statements, Worker.antt the queue, the worker and the registry. The threads
-- that poll and the observers are not modelled, nor is the adapter to PostgreSQL.
--
-- Identity (modules/identity). Errors, Validation and Mail are pure code. Store.antt has the tables,
-- the settings of the service and how a statement runs: the clock, fresh ids, hashes, tokens,
-- one-time passwords, mail and failures of the database are functions of the number of the call, so
-- that every theorem holds for all of them. Sessions, TwoFactor and Users are the SQLite
-- repositories, Outbox, Writer, Emails and Managed the transactions of the managed writer, and Auth
-- with its children `AuthAppService`. Roles is the registry of permissions with the SQLite
-- repository of roles, Access says who asks and what they may (`TokenCurrentUserProvider`,
-- `CachedAuthorization` of the application template, which the services run with; what the cache
-- has is a parameter), and UserAdmin and RoleAdmin are
-- `UserAppService` and `PermissionAppService`. OAuth.antt is `SqliteOAuthRepository`, and
-- OAuth/Service.antt `OAuthAppService`, with the providers as a function of the settings.
-- Upkeep.antt is the removal of expired rows in cleanup.rs. Auth/Requests, Admin and OAuth/Requests
-- serve any request of a service, Requests.antt those of all three. Auth/Sound, Admin/Sound and OAuth/Sound follow the sessions through all of them; Frame.antt
-- has what leaves the accounts alone; Auth/Guards, Auth/Once, Auth/Taken, Auth/Live, Auth/Begun,
-- Auth/Links, Auth/Deleted, Deletion, Admin/Granted, Admin/Allowed,
-- Admin/Deleted, Admin/Renamed, Admin/Normal, OAuth/Guards, OAuth/Entered, OAuth/Kept and OAuth/Signup say what a
-- success means and when there is one.
--
-- Migrations (crates/persistence/src/migrations.rs and migrations/status.rs beside it).
-- Migrations.antt is `MigrationPlan::new` and `compare_history`; Migrations/Complete compares a plan
-- with the modules, Migrations/History a history with the plan.
--
-- Search (crates/search/src/projection_sqlite.rs). Search.antt is the handler of search jobs and its
-- table of revisions, for any engine; Search/Monotone and Search/Newest follow the revisions. The
-- commands are those that the identity module puts in the outbox.
--
-- Instants and durations are natural numbers of nanoseconds; subtraction stops at the epoch. The
-- database is taken to compare the instants that it stores as texts in the order of time. Integer
-- columns are natural numbers without overflow, except the number of attempts of a new message,
-- which is checked against 2^31 - 1. All recursion is on lists or on counters; the only bound is
-- that of decimal numerals, twenty digits, which is enough for 64 bits. A statement that the
-- database refuses has no effect.
--
-- Not modelled: paged lists and searches over users and roles, the
-- details of audit entries; the seed of the identity module; the
-- adapters to PostgreSQL and Redis, which repeat the same contracts; reading the migration history,
-- which is SQL on metadata, and running migrations, which is a call of sqlx; the search engines,
-- storage and caches; HTTP routing, user interfaces, and the tools, which generate source text and
-- work on files.
pub mod Base
pub mod RateLimit
pub mod Jobs
pub mod Migrations
pub mod Identity
pub mod Search
