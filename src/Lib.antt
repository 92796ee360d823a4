-- ===== src/Lib.antt =====
-- Verification library of fastapi-tenancy, a multi-tenancy layer for FastAPI.
--
-- A request enters the ASGI middleware, which asks a resolver for the tenant. The resolver reads an
-- identifier from a header, the path, the host or a JWT and looks it up in the tenant store. The
-- middleware lets active tenants within their rate limit through, makes the tenant current in the
-- request context, runs the application and restores the context. An isolation provider maps the
-- tenant to a schema, a database or a row filter, whose names come from the configuration and the
-- sanitiser. A cache with a time to live stands in front of the store.
--
-- Which file models which part (paths under src/fastapi_tenancy):
--   Prelude      shared names; texts as lists of code points, Python's dict in insertion order, the
--                stable descending sort
--   Core         core/types.py, core/exceptions.py, core/config.py (Core/Config/Validation: its bounds
--                and validators, Core/Config/Printing: __str__) and core/context.py (Core/Context: a
--                state of two context variables)
--   Utils        utils/validation.py (the regular expressions as recursive matchers, with Python's
--                `$`), utils/_sanitize.py, utils/db_compat.py, utils/encryption.py and utils/security.py
--   Storage      storage/memory.py (Storage/Memory: one function per method, from store to result
--                and store), the default methods of storage/tenant_store.py and its contract
--                (Storage/Contract), storage/redis.py (Storage/Redis, over the in-memory store: the
--                cache entries, with the time at which they end) and storage/database.py
--                (Storage/Sql: the rows by primary key; Storage/Sql/Retries: the metadata merge on
--                PostgreSQL; Storage/Sql/Queries: the methods on several rows; Storage/Sql/Stored: the
--                store as one that has the contract)
--   Cache        cache/tenant_cache.py; `lookup` is its get, and `set` its _set_unsafe
--   Isolation    isolation/hybrid.py (Isolation/Hybrid: routing; its Delegation: the methods over the
--                inner providers), isolation/database.py (Isolation/Database: names, URLs and the
--                databases of the server; Isolation/Engines: the engine cache, whose engines are
--                numbers), isolation/schema.py (Isolation/Schema: the statements that a method tries, in
--                order) and isolation/rls.py (Isolation/Rls: the rows of shared tables, under their
--                policies). The sessions of all are blocks over a trace of transactions
--                (Isolation/Session), and apply_filters is in Isolation/Filters
--   Resolution   resolution/header.py, path.py, subdomain.py and jwt.py
--   Manager      manager.py: the constructor (Manager/Factory), the caching proxy (Manager/CachingStore,
--                over the in-memory store), check_rate_limit (Manager/RateLimit) and its Lua script
--                (Manager/RateLimit/Window), the life cycle of tenants (Manager/Tenants), and start-up,
--                shut-down and the purge loop (Manager/Lifecycle), the metrics (Manager/Metrics)
--   Migrations   migrations/manager.py (Migrations/Tenants: the operations on one tenant)
--   Middleware   middleware/tenancy.py
--   Dependencies dependencies.py, as routes under the middleware
--   Tests        runs on concrete inputs, and the theorems applied to them
--
-- Conventions. A method that changes state takes the state last and returns it beside its result; a
-- method that may raise returns a Result, whose errors are the classes of core/exceptions.py and
-- Python's ValueError and KeyError. An error's reason is a constructor with the values that its text
-- shows. The clock is an argument (microseconds for timestamps, nanoseconds for the monotonic clock).
-- Code points above ASCII are numbers like the others. A method that holds the store's lock
-- throughout is one step. All recursion is structural, but for the loop over the pages of tenants in
-- Migrations, which has fuel: one round more than there are active tenants is enough. The retries of
-- the metadata merge are counted down from five, and within each from five again, as in the source.
--
-- Parameters of the model: str.lower and str.format, PyJWT's decode (Decode), Fernet, SHA-256, random
-- texts, a custom resolver, the JSON coding of tenants and of metadata (a Codec in each store), SQL's
-- LIKE and ORDER BY, Pydantic's representation of the configuration, how a PostgreSQL server ends each transaction of a merge (Server), which actions
-- the database of a schema provider takes and what it answers (Database), its delegate for MySQL, which
-- steps of a database provider fail (Faults), which steps of other objects raise as the manager starts
-- and ends (World), Alembic, the count that Redis returns for a tenant (nothing where the call raises),
-- the downstream ASGI application (App), which exceptions FastAPI answers (Answer), what
-- create_async_engine raises (Platform), on which tables a policy is enforced, Pydantic's reading of
-- JSON values (Parser), and, for the resolvers, the store's get_by_identifier (Lookup). What the life
-- cycle of tenants relies on in a store is the contract IsStore, whose calls may fail; the in-memory
-- store, the proxy and the SQL store have the stronger IsReliable.
--
-- Not modelled: logging, the messages that a connection receives, the content headers of error
-- responses, the types of fields that Pydantic checks, the execution of SQL, the creation of engines
-- (but for what it raises as a provider is built) and the key derivation.
pub mod Prelude
pub mod Core
pub mod Utils
pub mod Storage
pub mod Cache
pub mod Isolation
pub mod Resolution
pub mod Manager
pub mod Migrations
pub mod Middleware
pub mod Dependencies
pub mod Tests
