-- ===== src/Lib.antt =====
-- The reconciler of Synchrotron, a controller that keeps a cluster equal to what a repository
-- declares.
--
-- Parts and their files (paths from the repository's root):
--   Base            names shared by all: lists, equality, maps, orders, sorting.
--   Manifest        crates/synchrotron-plugins/src/manifest.rs: manifest bodies, their hash
--                   `fnv1a64`, and their tiered equality (`ManifestBody::eq`, here `body_beq`); in
--                   Manifest.Stream `Gvk::parse` and `parse_stream`. That the `expect` in `from_value`
--                   panics is one of the ways in which the reading of a stream ends (`panicked`).
--   Plan            crates/synchrotron-reconcile/src/plan.rs: `ResourceRef`, `plan` and the counts.
--                   Plan uses `body_beq` to tell an update from a no-op.
--   Pool            crates/synchrotron-reconcile/src/worker_pool.rs: the locked `State` and the
--                   counters (the record Pool), `enqueue_impl`, `next_dispatch`, the end of a
--                   handler in `spawn_handler` (`complete`), the flag of `shutdown` (`close`).
--
--   Debounce        crates/synchrotron-reconcile/src/debounce.rs: the pending entries and the sleeping
--                   timer tasks (`timers`). It calls `enqueue_coalesce` of Pool.
--   AutoHeal        crates/synchrotron-reconcile/src/auto_heal.rs: one `tick`, which calls
--                   `enqueue_coalesce` of Pool for every app.
--   EventTrigger    crates/synchrotron-reconcile/src/trigger.rs: which apps an event of the bus enqueues
--                   with `enqueue_coalesce` of Pool.
--   KindOrder       crates/synchrotron-reconcile/src/kind_order.rs: `sort_within_wave`.
--   Wave            crates/synchrotron-reconcile/src/wave.rs: `wave_of`, `group_into_waves`, and in
--                   Wave.Exec `execute_waves`. A plan of Plan is split into waves, which KindOrder
--                   sorts; the executor drives the cluster behind an interface.
--   Health          crates/synchrotron-types/src/health.rs: the health codes; in its children
--                   crates/synchrotron-health/src/lib.rs (Health.Kinds for the rules by kind,
--                   Health.Assess for the tiers) and aggregate.rs beside it (Health.Aggregate). The
--                   wave executor's health gate asks for the aggregate.
--   Monitor         crates/synchrotron-kube/src/health/state.rs: the `Tracker` of the probe loop.
--   Hooks           crates/synchrotron-reconcile/src/hooks.rs: the phases and delete policies of a
--                   manifest of Manifest, and the split of hooks from the regular flow.
--   Diff            crates/synchrotron-diff/src, one module for each file: Diff.Paths, Diff.ListMap,
--                   Diff.Compare, Diff.ManagedFields, Diff.Ignore, Diff.Ownership, Diff.AutoIgnore, and
--                   Diff.Pipeline for the tiers in their order (`evaluate`). Diff.Tree is what they
--                   see of a YAML value; it extends Manifest.Yaml.
--   Informer        crates/synchrotron-kube/src/informer: the watch session (`spawn_session`, here `session`)
--                   and the supervisor that starts and aborts it with the health of Monitor.
--   Discovery       crates/synchrotron-kube/src/scaler_discovery.rs: the consumer tasks that keep the cache
--                   of Diff.AutoIgnore up to date from the events of Informer; Discovery.Tasks lets
--                   their steps interleave.
--   Caching         crates/synchrotron-plugins/src/cache.rs and app_cache.rs: the caches of rendered
--                   manifests, over the interface Caching.Lru of the lru crate.
--   Notifier        crates/synchrotron-notifier/src/lib.rs: the webhook call for a `SyncOutcome` of
--                   Reconcile, with its retries, and the signatures.
--   KnownHosts      crates/synchrotron-git/src/known_hosts.rs: the entries, the lookup of a host's
--                   key (`verify_host`), and `HostVerifier::check` (`check_host`); the
--                   lines themselves in KnownHosts.Syntax.
--   Prune           crates/synchrotron-kube/src/prune.rs: `compute_prune_set`, `is_prune_disabled` and
--                   `KubeSsaApplier::delete` (`delete_owned`), over the identities and order of Plan.
--   Reconcile       crates/synchrotron-reconcile/src/reconcile.rs: one pass of an app. It plans with
--                   Plan, splits and executes with Wave, and publishes the `SyncOutcome` of
--                   crates/synchrotron-core/src/events.rs.
--
-- Fuel. Only the polling loop of `execute_waves` may run on; its fuel counts the polls of one wave,
-- and `timeout / interval + 2` is enough for a clock that does not run backwards. The comparison of
-- YAML values recurs on fuel too: one more than the nesting of the desired value, `rank`, since each
-- call goes into a part of it. The loop that trims a cache by bytes has as much fuel as there are
-- entries.
--
-- Conventions. A HashMap is an association list; where its iteration order is visible the code
-- sorts afterwards. Code under a mutex is one function from state to state, so a run of the tasks
-- is a sequence of steps (Pool.Lifecycle.Step, Discovery.Tasks.Step). An instant is a number of
-- microseconds that the caller passes. Counters of 64 bits wrap around; lengths, caps and the depth
-- are unbounded numbers, since each counts elements in memory. Vectors and queues are lists. The
-- YAML value type and the JSON printer and reader of serde are the interface Manifest.Yaml; what
-- two byte slices share is their field `address`.
--
-- Sizes in bytes are `usize` of 64 bits: the running count of a cache saturates as the code's does.
--
-- Not modelled: tokio's scheduler, logging, and the join handles that
-- `WorkerPool::shutdown` awaits; the HTTP server, the command line client and the benchmarks; the SQL
-- of the state database; the transports to git, to Kubernetes and to the renderer plugins, which
-- call libraries and the network. The SHA-256 digests in the keys of the caches are given.
mod Base
pub mod Manifest
pub mod Plan
pub mod Pool
pub mod Debounce
pub mod AutoHeal
pub mod KindOrder
pub mod Health
pub mod Monitor
pub mod Reconcile
pub mod Hooks
pub mod Wave
pub mod EventTrigger
pub mod Diff
pub mod Prune
pub mod Informer
pub mod Discovery
pub mod Caching
pub mod Notifier
pub mod KnownHosts
