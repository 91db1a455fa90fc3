-- ===== src/Lib.antt =====
-- A verification library for armstrong_bot, a Discord bot in TypeScript on NestJS. It models the
-- parts that decide: who may do what, what state a plugin is in, which webhooks are let in, what
-- the audit ledger proves, where a notification goes, when a job has to wait, what a cache answers,
-- and what is stored for a guild.
--
-- The parts and where they are modelled:
--
-- Permissions (src/core/permissions). Permissions.Claim is domain/claim.value-object.ts: claims,
-- their coverage and their specificity, on lists of UTF-16 code units; the pattern is the automaton
-- that reads it, and a specificity is counted in halves. Permissions.Resolver is
-- domain/permission-resolver.service.ts: `walk_group` is walkGroup with the levels that are left as
-- its number, `resolve` is resolve. Permissions.Snapshot is infrastructure/group.repository.ts and
-- infrastructure/role-mapping.repository.ts with application/permission-cache.facade.ts, which make
-- the context that the resolver reads. Permissions.Service is application/permission.service.ts with
-- the tables of the repositories (Permissions.Service.Tables) and the cached snapshots of
-- application/permission-cache.facade.ts: `handle_request` is one call, or a snapshot that expires.
-- An event that is published waits in a queue, by the default of src/core/events/registry, and its
-- handler, which invalidates the snapshot, is a request of its own. The collations of the columns are
-- fields of the database. That groups with the same id are of the same guild holds as the id is the
-- key of their table.
--
-- Plugins (src/core/plugins). Plugins.Manifest and Plugins.Lifecycle are contracts, errors and
-- domain/plugin-lifecycle.service.ts: the statuses, the table of transitions, and hooks by how they
-- end. Plugins.Service is the state of application/plugin.application-service.ts, the tables of
-- infrastructure/plugin.repository.ts and the map of domain/plugin-registry.ts; its Operations are
-- installPlugin, enablePlugin, disablePlugin, updatePlugin, removePlugin, disableAll and
-- disableForGuild, and `handle` of its Requests is one call of the service. The external
-- semver.satisfies is a parameter; what a loader gives and how a hook ends are inputs of a call.
-- Plugins.Dependencies is topologicalOrder of domain/plugin-dependency.resolver.ts.
--
-- Webhooks (src/modules/webhooks). Webhooks.Deliveries is the table of deliveries, the claims of
-- domain/idempotency.guard.ts, the queue and the events. Webhooks.Inbound is
-- application/inbound-webhook.service.ts: `accept` on every branch, and Webhooks.Worker is its
-- `process`. A verifier, the cipher, the digest and a normalizer are parameters; which writes fail
-- is an input (`Faults`), and reads succeed. A claim expires when it leaves the list of claims.
--
-- Audit (src/modules/audit). Audit.Chain is domain/audit-chain.service.ts and appendWithRetry of
-- jobs/audit-ingest.processor.ts, where other instances may append between the reading of the tail
-- and the insertion. Audit.Retention is sweepChain of domain/retention.service.ts and verifyChain
-- of application/audit.service.ts. The digest of the canonical text of an entry is a parameter, and
-- no theorem asks it to be free of collisions on anything but the entries at hand.
--
-- Notifications (src/modules/notifications). Notifications.Preferences is
-- domain/preference-resolver.service.ts; the formatter of the time zone is a parameter.
--
-- Scheduler (src/modules/scheduler). Scheduler.Maintenance is domain/maintenance-window.vo.ts and
-- resolveAgainstMaintenance of domain/scheduler.domain-service.ts; what the cron parser finds is a
-- parameter.
--
-- Cache (src/cache). Cache.MemoryStore is stores/memory-cache.store.ts: nodes at addresses that are
-- linked both ways, and the map of the keys; `Lru` below it is the list in order of use that the
-- store stands for, and `call_store` is one call at a time that is its argument.
--
-- Storage (src/modules/storage). Storage.Objects is infrastructure/storage-object.repository.ts with
-- domain/content-hash.util.ts, and Storage.Service is application/storage.service.ts: `handle_storage`
-- is one call. The digest and the quotas are parameters; the driver holds what was put last under a
-- key, and whether it fails to put is an input. Calls follow one another, so the races of two stores
-- are left out.
--
-- Metrics (src/modules/metrics). Metrics.Cidr is domain/cidr.util.ts from the bytes of the addresses
-- on, and Metrics.Guard is api/metrics-scrape.guard.ts. What node reads as an address, what `Number`
-- gives for the prefix and the value of the header are inputs.
--
-- State is passed explicitly: an operation gives its result with the state that it leaves, on
-- errors too, so that an error that leaves something behind is visible. Errors are values of
-- Prelude.Results.
--
-- Bounds and fuel: `walk_group` counts down from maxDepth + 1, the source's own bound, and
-- `resolve_total` says when it is enough. `visit` of the topological order starts with one more
-- than the number of manifests, which `topological_order-ends` shows is never used up.
-- `append_with_retry` counts its attempts down, as the source does. `defer_rounds` counts the
-- rounds of the source's loop down. All else is structural recursion. Numbers are natural numbers;
-- priorities are integers.
--
-- Not modelled: Discord itself, HTTP controllers, request shapes and the guards but that of the
-- metrics, the dashboard, the database client, the queues themselves, the cache in Redis, logs, the
-- collection of metrics and traces, and the times in rows and events. Of the modules that are left
-- out, the manifest says why.
mod Prelude
pub mod Permissions
pub mod Plugins
pub mod Webhooks
pub mod Audit
pub mod Notifications
pub mod Scheduler
pub mod Cache
pub mod Storage
pub mod Metrics
