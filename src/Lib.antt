-- ===== src/Lib.antt =====
-- OpenDash: a dashboard that installs and runs applications in containers on one host.
--
-- The program is a Go server (cmd/opendash, internal/). An HTTP API (internal/api) authenticates one
-- administrator (internal/auth), reads manifests of applications from a catalogue (internal/catalog) or
-- from GitHub (internal/githubsource, internal/sources), plans and runs installations and updates, and
-- records applications, operations, revisions, sources and backups in SQLite (internal/store).
--
-- Which file models which part:
-- Models       internal/models: each struct as a record, each string enumeration as a data type with
--              `other` for the values that have no constant; times are nanoseconds since the year 1.
-- Sql          database/sql as the program uses it: one connection, a list of coming failures of the
--              driver, statements, transactions that restore what they found; Sql/Triple has the rules
--              for reasoning about calls whatever fails, Sql/Returns those where nothing fails.
-- Auth         internal/auth/auth.go: Password has hashPassword and verifyPassword, Service has
--              Bootstrap, Login, Authenticate and Logout over the tables of admins and sessions.
-- Api          internal/api/auth.go: Limiter has the limiter of login attempts, Sessions the handlers of
--              sessions and the guard requireAuth.
--              internal/api/catalog.go and handlers.go: Redact has redactSecrets and secretValuesForApp,
--              Observe has observeAndUpdateInstance and updateEndpoints, Operations has composeAction,
--              AppUninstall and runOperation, Install has InstallApp. A handler returns its reply; its
--              goroutine is a call of its own, on the store that the handler left, and where its context has
--              ended its calls of the store fail. The store is one with the methods of AppManager: the
--              reply 501 for another is left out.
--              internal/api/sources.go: Update has AppApplyUpdate, without the goroutine that it starts.
-- Diagnostics  internal/diagnostics/diagnostics.go: Evaluate and EvaluateHealth.
-- Store        internal/store/sqlite.go, backups.go and migrations.sql: Rows has the tables, Apps,
--              Operations, Sources and Backups one function for each method of SQLiteStore, and Requests
--              the writing methods as data.
-- Catalog      internal/catalog/catalog.go: Ports has ParsePortMapping and urlPort, Validate has
--              ValidateManifest, Assess has the risks and conflicts, Plan has ApplyConfig and
--              BuildInstallPlan. internal/catalog/compose.go: Allocate has the reservation and the
--              allocation of host ports, Compose the environment file and the Compose document.
-- Sources      internal/sources/service.go: Diff has the differences between two plans and the
--              condition under which an update must be acknowledged, Service the methods over the store.
-- Backup       internal/backup/service.go: EnforceRetention over the store and the archive files.
-- Github       internal/githubsource/parse.go: Url has ParseURL.
-- Prelude, Split  texts, numbers, association lists and results that the parts share.
--
-- What stands outside the repository is a parameter: argon2, SHA-256, base64, the clock, the random
-- source, which calls of the driver fail, the order of rows that ORDER BY gives, and the functions of
-- Go's library that lower-case, quote, sort and join texts. Go's 64-bit integers are only parsed,
-- compared and stored, and the parser has their bounds. A JSON column holds the value that is read back
-- from it. A Go map is an association list, and its order is that of the list. Nothing runs on fuel: every
-- loop is structural recursion, but the printer of numbers, which has as many steps as the number's value.
--
-- Not modelled: the HTTP handlers but for those of sessions, operations and updates, the goroutine of an
-- update, the Docker runtime, files, the GitHub client, the backup service but for the retention, the
-- store's dashboard data and its migrations, the demonstration data.
pub mod Api
pub mod Auth
pub mod Backup
pub mod Catalog
pub mod Diagnostics
pub mod Github
pub mod Models
pub mod Prelude
pub mod Sources
pub mod Split
pub mod Sql
pub mod Store
