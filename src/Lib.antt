-- ===== src/Lib.antt =====
-- Counted, an event analytics service: its rules on workspaces, access, projects, monitors and events.
--
-- The program is a set of TypeScript packages, each a bounded context. A workspace buys a plan and
-- registers projects against its cap; a principal asks to act on a resource and is let through or
-- refused; a project takes events under keys that are issued within what their issuer holds; a monitor
-- watches a measurement; a client queues events on the device; the server admits a batch event by
-- event, collapses what it is sent twice, finds the country of the sender and writes the events of many
-- requests in one commit. Most of these are a pure core of immutable values, whose operations return the next
-- value with the events that they emit, or an error. The model keeps that form: a class is a record
-- of its fields, an operation is a function by clauses, a union with a `kind` is a data type, and a
-- `Result` is the data type of Kernel/Result.
--
-- The parts, with the code that they model:
--
--   Base            lists, tests, texts and integers that the parts share; `trim` is that of ECMAScript
--   Kernel          packages/kernel/src: Result (result.ts), Instant (instant.ts, duration.ts),
--                   Authz (authz.ts)
--   Tenancy         packages/tenancy/domain/src: Plan, Limits, Entitlement, Quota, Retention,
--                   ProjectCount, Workspace and Subscription, one file for each of the source's;
--                   packages/tenancy/app/src: Billing (record-billing-event.ts), UseCases
--                   (project-cap.ts, provision-workspace.ts, entitlements.ts) and ChangePlan, over
--                   the Store that packages/tenancy/ports/src describes
--   Access          packages/authorization/src: Principal, Grants, Placement and Decide, likewise
--   Projects        packages/projects/domain/src: Project and Digest (project.ts), Credential, Grant,
--                   Retention, Errors
--   Dashboarding    packages/dashboarding/domain/src: Threshold, Monitor (with `evaluateMonitor` of
--                   packages/dashboarding/app/src/monitors.ts), Tile, Dashboard (dashboard.ts and
--                   share-grant.ts), with the tile lifecycle in Dashboard/Tiles, the grid in
--                   Dashboard/Layout and the packing in Dashboard/Rows
--   Ingestion       packages/ingestion/domain/src: Errors, Batch, Country, Person, OsName,
--                   SystemProperties, EventName, Admission (with admitEvent and admit in
--                   Admission/Event) and Dedup, one file for each of the source's;
--                   packages/ingestion/app/src: Policy and GroupCommit, with submit in
--                   GroupCommit/Submit, the private commit in GroupCommit/Settle, drain in
--                   GroupCommit/Drain and what can happen, step by step, in GroupCommit/Steps
--   Geo             packages/ingestion/adapter-geoip/src: Address (address.ts, with addressKey in
--                   Address/Entry), Reader and Table (table.ts); Writer, of
--                   scripts/build-country-table.ts
--   Analytics       packages/analytics/domain/src/funnel.ts: Funnel, with summarize and biggestDropOff
--   Sdk             packages/sdk-js/src: Queue, Visit
--
-- A component's definitions stand in its own file, and what is proved of them in its child modules.
-- Tests of each part hold runs at concrete values.
--
-- How the parts meet: Tenancy.Subscription yields the standing that Tenancy.Workspace adopts, and
-- Tenancy.Billing saves both, one after the other;
-- Ingestion.GroupCommit takes what Ingestion.Admission.Event admits, whose repeats Ingestion.Dedup
-- collapses;
-- Access.Decide asks Access.Grants what a principal holds and Access.Placement how far it reaches;
-- Projects.Grant grants from what Access.Grants expands a role to, and a key that was granted is a
-- principal of Access.Decide.
--
-- Names. Identifiers are those of the source in this language's spelling. A method that clashes with
-- a name in use is qualified by its module, the state `ok` of a monitor is `healthy`, and `isDefault`
-- of a dashboard is `preferred`.
--
-- Numbers. Counts are native natural numbers; instants and durations are integers of milliseconds,
-- below 2 ^ 53 in magnitude, where the source's numbers are exact. A quotient that the source compares
-- is kept as a fraction. A width of a tile is a natural number, and an index or a position on the grid
-- an integer. The arrays of the country table hold 32 and 16 bits, and their wrap-around is written
-- out. A number in a request's body is an integer too.
--
-- Loops. Most are structural recursion over the lists that they run through. Two run on fuel: the
-- search of the table, with its length, since each round shrinks the range, and the writing of a number
-- seven bits at a time, with the number itself; for each it is proved that the fuel is enough. The loop
-- of drain awaits the sink, so it is steps of the relation below, with a measure of what is left.
--
-- Concurrency. The class GroupCommit awaits the quota, the sink and its own commits. Each stretch of
-- its code between two awaits is a function on its state, what an await yields is an argument, and a
-- step relation lets the stretches of any number of requests follow one another in any order. A promise
-- is a ticket: a waiter holds it, and it is answered when it is among the settled. A use case of the
-- tenancy runs as one transaction, as its unit of work provides; recordBillingEvent is handed repositories
-- without one, so each of its calls of them is a step, and a delivery may fail at any of them.
--
-- Parameters. The `accesscontrol` package is a record of operations and of the laws that its manual
-- gives; the theorems hold of every implementation of it, and the tests instantiate one. The order of
-- the measured values of a monitor is a parameter too, and so is the type of a queued event. The parse
-- of a date, the case of letters, the names that a plain object inherits and the generated tables of the agents' vocabulary are the fields of
-- one record, and so is how a character past the basic plane is cut; the floating-point division of a
-- funnel's percentages is a parameter as well; what the sink, the quota, the
-- ledger and the payment provider answer is an argument.
--
-- Not modelled: databases, HTTP, mail, hashing and the payment provider's client, which are input and
-- output; schemas, routing and wiring; the web console; how the
-- registries' records are merged into a table; and, of the pure cores, windows,
-- measures and the other questions of analytics, the checks of a funnel before it is counted, the flush
-- loop of the client, the translation of payment events, and the use cases of projects and dashboards.
pub mod Base
pub mod Kernel
pub mod Tenancy
pub mod Access
pub mod Projects
pub mod Dashboarding
pub mod Ingestion
pub mod Geo
pub mod Analytics
pub mod Sdk
