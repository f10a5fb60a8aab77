-- ===== src/Lib.antt =====
-- The backend of the Taunggyi City Church (TCC): a Django application whose own core is the making
-- of primary keys, a cache over Redis, the services for tokens that share the cache, and the use cases
-- that check, run and answer a request: signing in, passwords, users. This library models that core,
-- as functions that run, and proves what makes each part correct.
--
-- The parts and their files (paths are from the repository's root):
-- - `Snowflake` and its children: apps/tcc/utils/snowflake.py, the generator of primary keys.
--   `Snowflake` has the layout of an id (`init`, `compose` of generate_id, `decompose_id`),
--   `Snowflake.Generator` the thread's state and `generate_id` with what it calls; the clock and
--   Django's cache are parameters. The loop that waits for a new millisecond runs on its own limit of
--   100 rounds, as in the source, so no fuel is chosen here.
-- - `Cache` and its children: apps/core/cache/async_cache.py and apps/core/cache/serializer.py.
--   `Cache.Breaker` is CircuitBreaker, `Cache.Async` the connection and
--   _execute_with_circuit_breaker, `Cache.Operations` get, set, delete, get_many, flush_pattern,
--   exists, ttl, expire and incr. The client of Redis and json are parameters (`Cache.Redis`).
--   `Cache.Api` is the interface that the services rely on; `Cache.Refines` and `Cache.Implements`
--   show that AsyncRedisCache provides it, and `Cache.Memory` is a cache in memory for the tests.
-- - `CacheKeys` and `CacheManager`: apps/core/cache/cache_keys.py, the builder of keys, and
--   apps/core/cache/cache_manager.py, the calls of a cache under those keys.
-- - `Cached` and its children: apps/core/cache/decorator.py, both decorators over any cache of that
--   interface, with str.format for templates whose fields are names.
-- - `RateLimiter` and its children: apps/core/jwt/rate_limiter.py, over any cache of that interface.
-- - `Blacklist` and its children: apps/core/jwt/blacklist_service.py, over any cache of that interface.
-- - `Jwt` and its children: apps/core/jwt/jwt_backend.py. `Jwt` has the claims and the check of the
--   configuration, `Jwt.Backend` the operations of JWTManager and JWTBackend. PyJWT, the sources of
--   random texts and Django's cache are parameters. A coroutine is a value of the model: awaiting it
--   runs it, and one that is not awaited runs nothing.
-- - `KeyRotation` and its children: apps/core/jwt/key_rotation.py, over any cache of the interface; the
--   making of RSA keys is a parameter.
-- - `BaseModel` and its children: apps/tcc/models/base/base_model.py: saving, soft deletion, restoring
--   and permissions, with Django as a parameter.
-- - `Validation` and its children: apps/core/core_validators/valdiaiton_context.py and registry.py.
-- - `Pagination` and its children: apps/core/schemas/common/pagination.py.
-- - `UseCase` and its children: apps/tcc/usecase/usecases/base. `UseCase.Access` is config.py (roles,
--   permissions, AuthorizationManager), `UseCase.Base` the class BaseUseCase of base_uc.py, whose hooks
--   are a record, and `UseCase.Crud` its generic use cases over any repository. The transaction of
--   Django is a parameter. `UseCase.Errors` has the exceptions of apps/core/core_exceptions/domain.py
--   and of auth_exceptions.py and u_exceptions.py in apps/tcc/usecase/domain_exception.
-- - `Auth` and its children: apps/tcc/usecase/usecases/auth. `Auth.Login` is login_uc.py,
--   `Auth.Recovery` change_password.py, reset_password.py and forgot_password.py, `Auth.Session`
--   refresh_uc.py, logout_uc.py and verify_uc.py, `Auth.Tokens` jwt_uc.py. `Auth.Passwords` is
--   password_service.py in apps/tcc/usecase/usecases/base, `Auth.Users` what these read of the class UserRepository in
--   apps/tcc/usecase/repo/domain_repo/user_repo.py, without its decorators. bcrypt, the check of an
--   email by pydantic, the classes of Unicode and the database are parameters; the use cases run over
--   any repository, and `Auth.Requests` gives them to `execute`, with the services that the program
--   gives them.
-- - `Members` and its children: user_update_uc.py, user_delete_uc.py and (`Members.Creation`)
--   user_create_uc.py of apps/tcc/usecase/usecases/users, over any repository.
-- - `Entities` and its children: apps/tcc/usecase/entities: base_entity.py, users_entity.py,
--   donations.py and events.py, with the enumerations of apps/tcc/models/base/enums.py.
-- - `Common` and its children: exceptions and state (`Common.Exec`: a method takes the state and gives
--   an outcome with the state it leaves, also where it raises), dicts, integers, bits and lists.
--
-- Times are natural numbers of microseconds, times to live are seconds. A method reads the clock once.
-- Calls are atomic: what other tasks do between two awaits of one call is not modelled.
--
-- Not modelled: the text of logs and reports, health checks that only report, the reading of the
-- environment, Django's models, migrations and views, the repositories but for what `Auth.Users` has
-- (calls of the ORM), the use cases of donations, events, prayers and sermons (their files are commented
-- out as a whole), the times that the authentication stores, the
-- copying of fields between entities, models and schemas, the other schemas and validators, and the
-- helpers for the database, which are glue to libraries.
mod Common
pub mod Snowflake
pub mod Cache
pub mod CacheKeys
pub mod Cached
pub mod CacheManager
pub mod RateLimiter
pub mod Blacklist
pub mod Jwt
pub mod KeyRotation
pub mod Validation
pub mod BaseModel
pub mod UseCase
pub mod Auth
pub mod Members
pub mod Entities
pub mod Pagination
