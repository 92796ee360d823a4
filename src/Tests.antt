-- ===== src/Tests.antt =====
-- Runs of the definitions on concrete inputs, and the theorems at inputs that meet their hypotheses.
pub mod Samples
pub mod StorageTests
pub mod CacheTests
pub mod ResolutionTests
pub mod CoreTests
pub mod MiddlewareTests
pub mod ManagerTests
pub mod UtilsTests
pub mod LifecycleTests
pub mod RedisTests
pub mod IsolationTests
pub mod MigrationTests
pub mod SqlTests
pub mod SqlQueryTests
pub mod SessionTests
pub mod ManagerLifeTests
