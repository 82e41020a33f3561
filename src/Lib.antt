-- ===== src/Lib.antt =====
-- A verification library for GCDR, the registry of customers, devices, users and rules behind the
-- MYIO platform: a Node service in TypeScript whose handlers call services, which call repositories
-- over PostgreSQL tables through the Drizzle library, and which publish events.
--
-- Parts, with paths from the repository's root:
--
-- - Base: the helpers that all parts share. Base/Errors is src/shared/errors/AppError.ts and the shape of
--   a method: an action takes a state and gives a result, a value or an error, with the state that
--   it has reached, since what is written before a throw stays written. Base/Actions is the program
--   logic of such actions, Base/Rows the rows of a table under `update … where`, Base/Dict a `Map`,
--   Base/Text and Base/Split the operations on strings that the code calls, Base/Sort a stable sort for
--   `orderBy`, and Base/Records the entity and the event that every service has.
-- - Authorization: src/services/AuthorizationService.ts with src/repositories/RoleRepository.ts,
--   PolicyRepository.ts and RoleAssignmentRepository.ts. Data and Requests are the rows and the request
--   bodies, Tables the queries, Rows the writes, Matching the comparison of scopes and permissions,
--   Evaluation `checkPermission`, `evaluatePermission` and `evaluateBatch`, Effective
--   `getEffectivePermissions`, and Service the eight operations that change the tables (`create_role`
--   is `createRole`, and so on).
-- - Access: the access bundle, src/services/BundleGeneratorService.ts with
--   src/repositories/BundleCacheRepository.ts. Data is src/domain/entities/UserAccessBundle.ts and
--   DomainPermission.ts, Build the private builders, Cache the rows of the cache, and Service the
--   operations, which read the tables of Authorization. Keys, Grants, Formats and Fresh hold the proofs.
-- - Account: registration, verification codes and sign-in. Data is src/domain/entities/User.ts. Users is
--   src/repositories/UserRepository.ts, with a function for the change of a row in Users/Changes and one
--   for the write (`approved_change` and `approve_row` are `approveUser`). Codes is
--   src/repositories/VerificationTokenRepository.ts, Registration is
--   src/services/RegistrationService.ts, and SignIn, Jwt and Sessions are src/services/AuthService.ts
--   with `recordLoginAttempt` of src/services/UserService.ts. Machine is the abstract machine of an
--   account, a step relation on the users of a tenant that the detailed operations are related to.
-- - ApiKeys: src/services/CustomerApiKeyService.ts with src/domain/entities/CustomerApiKey.ts and
--   src/repositories/CustomerApiKeyRepository.ts, the keys that machines sign in with.
-- - Customers: src/services/CustomerService.ts with src/repositories/CustomerRepository.ts, the hierarchy
--   of customers that is kept as paths. Data is src/domain/entities/Customer.ts, Rows the queries, Service
--   the creation, the update and the deletion, and Moves the move to another parent. Places says what a
--   well-formed hierarchy is; Tree, Descendants, Ancestors and Stale hold the proofs.
-- - Simulator: the simulator of alarms. Data is src/domain/entities/Simulator.ts, Quotas is
--   src/services/SimulatorQuotaService.ts, Rows is src/repositories/SimulatorRepository.ts, Scan the
--   evaluation of rules, and Engine is src/services/SimulatorEngine.ts with
--   src/services/SimulatorBundleFetcher.ts: requests, ticks of timers, a restart and the cleanup are the
--   steps of a run. Queue is src/services/SimulatorQueueService.ts, where the `await` of the processor
--   splits a call in two and the arrays that a loop and the map hold are told apart; Queue/Line is the
--   line of jobs that the queue stands for.
--
-- Conventions. Numbers are the native ℕ; a time is in milliseconds and a call reads the clock once,
-- through a record such as `Env`, which also holds the tenant, the ids that the call draws and, where it is
-- needed, SHA-256. Rows stand in order of creation; where a query has no `orderBy` the database leaves
-- the order open and this order is taken. A call runs alone: interleavings of two calls on the same
-- rows are not in the model, and so the loser of an optimistic lock is met only where the row is gone.
-- A message is kept as its text or as a text with the part that varies (`Message`); what the code
-- logs is left out. Publishing an event never throws, as in the code, and appends to a list.
-- Lower and upper case are those of ASCII. `deletePolicy` reads a page of 1000 roles, and the model
-- keeps this bound. The recursions are all structural; the printing of a six-digit code takes six as
-- the number of digits, enough for a number that is taken modulo a million.
--
-- Parameters. SHA-256, HMAC, base64 and the JSON of claims and of bundles are functions given to the model; the
-- laws that a theorem needs of them are its hypotheses (`IsJose`).
--
-- Not modelled: controllers and middleware (glue over Express), schema, migrations and scripts,
-- but for the unique index of role assignments, which no check of the code stands in for; the
-- validation of requests by zod, paged listings, the tree that `getTree` builds for display, and
-- the services for devices, rules, alarm bundles, themes, partners and integrations. Of the
-- access bundle, a check without a scope, which hands the database driver an undefined value,
-- and domains, equipment and locations that are named like a property of JavaScript's
-- `Object.prototype`.
pub mod Base
pub mod Access
pub mod Account
pub mod ApiKeys
pub mod Authorization
pub mod Customers
pub mod Simulator
