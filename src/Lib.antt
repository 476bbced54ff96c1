-- ===== src/Lib.antt =====
-- Post-cortex: a server that remembers conversations. Sessions hold the recent updates of a
-- conversation, caches stand before the storage, workspaces group sessions, and a persister
-- writes sessions to the storage in the background.
--
-- The parts and their files (paths from the root of the repository):
-- - Base: lists, Boolean tests, keys and machine words that the others share.
-- - ConcurrentMap and Channel: what the code relies on in the third-party `DashMap` (the maps of
--   the standard library have the same interface) and the bounded channel of crossbeam, as
--   records of operations and laws; ConcurrentMap/Assoc is a map that satisfies them, an
--   association list.
-- - Cache: crates/post-cortex-core/src/core/cache.rs, `Cache` with its counters, the sampled
--   eviction, `get`, `put`, `remove`, `clear` and `resize`.
-- - QueryCache: crates/post-cortex-memory/src/query_cache.rs, the cached search results.
-- - JsonPath: crates/post-cortex-memory/src/jsonpath.rs. JsonPath itself is the executor, over an
--   interface to serde_json's values, JsonPath/Parser the parser and `apply_select`, with the
--   methods of the standard library in JsonPath/Texts; JsonPath/Printing writes paths, for the
--   round trip.
-- - Retry: `with_retry_timeout` of crates/post-cortex-core/src/core/timeout_utils.rs.
-- - Permits: the permits of crates/post-cortex-embeddings/src/embeddings/concurrency.rs, handed
--   out to interleaved threads.
-- - CircuitBreaker: crates/post-cortex-memory/src/memory_system/circuit_breaker.rs.
-- - Validate: the checks of words and limits of crates/post-cortex-daemon/src/daemon/validate.rs.
-- - Coerce: crates/post-cortex-daemon/src/daemon/coerce.rs, over an interface to serde_json's values.
-- - HostAllowlist: crates/post-cortex-daemon/src/daemon/host_allowlist.rs, which requests pass.
-- - Core: the data types of crates/post-cortex-core/src/core/context_update.rs.
-- - Session: `HotContext` and `EntityGraph` of
--   crates/post-cortex-core/src/session/session_components.rs; Session/Structured is the structured
--   state of crates/post-cortex-core/src/core/structured_context.rs, and Session/Active with its
--   children `ActiveSession` of crates/post-cortex-core/src/session/active_session.rs, which keeps
--   both and the graph.
-- - Graph: crates/post-cortex-core/src/graph/entity_graph.rs, `SimpleEntityGraph`. Graph/Petgraph is
--   what the code relies on in the third-party `petgraph`, Graph/Petgraph/Edges lists of nodes and
--   edges that satisfy it; Graph/Linked and its children are the invariant,
--   Graph/Network the bounded search for the entities near to one.
-- - Workspace: `Workspace` and `WorkspaceManager` of crates/post-cortex-core/src/workspace/mod.rs.
-- - Persister: `SessionPersister` of crates/post-cortex-memory/src/memory_system/persister.rs.
-- - Tests: runs at concrete inputs.
--
-- State is passed explicitly: an operation takes a record and returns the next one, beside its
-- result. Concurrent code is read as the sequence of its steps: each operation on a `DashMap`
-- entry is atomic in the source, and a step of the model is one such operation or a group of them
-- that a lock keeps together. A deletion of the persister and a write of its storage wait: what
-- other tasks do meanwhile is an argument, a function of the state. Counters of the machine keep
-- their width (`% 2 ^ 64`). Loops are recursion on the list or number that the source runs over.
-- Two loops run on fuel, which is shown to be enough: that of the JSONPath parser, with as many
-- turns as the text has characters, and that of the search for a network, with as many turns as
-- it may find entities.
-- Clocks, fresh identifiers and outcomes of the storage are arguments.
--
-- Not modelled: the serialized forms of sessions and of the entity graph and their loading, the
-- other searches of the entity graph (unbounded networks, paths, communities), the
-- persister's waiting for idle and flushing, the controller's `acquire`, the
-- vector index, the servers (gRPC, REST, MCP), the storage backends, floating-point numerics
-- (embeddings, statistics, similarity scores), the command line, templates and tests.
pub mod Base
pub mod Coerce
pub mod ConcurrentMap
pub mod Channel
pub mod Cache
pub mod Core
pub mod Session
mod Tests
pub mod Workspace
pub mod Persister
pub mod HostAllowlist
pub mod JsonPath
pub mod Graph
pub mod QueryCache
pub mod Validate
pub mod CircuitBreaker
pub mod Permits
pub mod Retry
