-- ===== src/Tests.antt =====
-- Tests by evaluation, and the theorems at concrete inputs.
mod CacheTests
mod CoerceTests
mod HostTests
mod HotContextTests
mod WorkspaceTests
mod PersisterTests
mod PathTests
mod ParserTests
mod GraphTests
mod EntityGraphTests
mod SessionTests
mod QueryCacheTests
