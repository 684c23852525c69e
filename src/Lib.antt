-- ===== src/Lib.antt =====
-- Verification of the backend of a cryptocurrency dashboard: a FastAPI service over PostgreSQL and
-- Redis that reads market data from CoinGecko and asks Claude for short insights.
--
-- The parts of the program and the files that model them:
-- * app/core/circuit_breaker.py is Breaker.antt: the record CircuitBreaker has the fields of the
--   class, `create` is `__init__`, `aenter` and `aexit` are `__aenter__` and `__aexit__`, and the
--   two breakers of the program are `coingecko_breaker` and `claude_breaker`. Breaker/Block.antt
--   is `async with`.
-- * app/core/cache.py is Cache.antt, one function per function of the file, over the commands of
--   Redis in Redis.antt. Cache/Stampede.antt is `cache_get_or_set` once more, cut at its `await`s
--   and run by any number of tasks under a schedule.
-- * app/providers/coingecko.py is Provider.antt: `fetch_markets` and `fetch_history`, each of
--   which runs its request under the breaker and maps the exceptions of httpx.
-- * app/services/ai_insight_service.py is Insight.antt, with InsightResponse of
--   app/schemas/cryptocurrency.py: `get_insight` reads the cache, and after a miss calls Claude
--   under the breaker in the factory of `cache_get_or_set`.
-- * app/models/user.py and app/repositories/user_repo.py are Users.antt, over a table of
--   Sql.antt.
-- * app/models/cryptocurrency.py and app/repositories/crypto_repo.py are Coins.antt;
--   app/services/crypto_service.py is CoinService.antt, where `list_coins`, `get_coin`,
--   `top_movers` and `refresh_coins` are `get_all`, `get_by_id`, `get_top_movers` and `refresh`
--   of the class; its `get_history` is in HistoryService.antt, with the endpoint.
-- * app/models/price_history.py and app/repositories/price_history_repo.py are PriceHistory.antt.
-- * app/worker/refresh_job.py is Worker.antt: `run_refresh` is `_run_refresh`, with its pages,
--   their attempts and `fetch_and_store_page`. A session's uncommitted changes are apart from the
--   database. Worker/Freshness.antt is `_tick_data_age`.
-- * app/core/idempotency.py is Idempotency.antt; app/models/watchlist.py,
--   app/repositories/watchlist_repo.py and app/api/v1/endpoints/watchlist.py are Watchlist.antt;
--   Watchlist/Spec.antt says what they promise, a set of coins for each user.
-- * app/core/security.py is Security.antt; app/services/auth_service.py is Auth.antt, and
--   Auth/Sessions.antt says which refresh token it accepts;
--   app/schemas/user.py, with the handlers of app/api/v1/endpoints/auth.py that check a body by it,
--   is Passwords.antt: `post_register`, `post_login` and `post_refresh` are `register`, `login` and `refresh`.
-- * app/core/rate_limit.py is Limits.antt, where `limit` is `_limit` in an environment.
-- * app/db/database.py is Database.antt: `get_db` is around a handler, and its commit may be refused.
-- * app/api/v1/dependencies.py and app/grpc_server/auth_interceptor.py are Access.antt.
-- * app/api/v1/endpoints/cryptocurrencies.py is RefreshEndpoint.antt for its refresh, and
--   CoinEndpoints.antt for the reads, where `get_movers` is `get_top_movers`.
-- * app/api/v1/router.py with the decorators of app/api/v1/endpoints is Routes.antt.
-- * app/main.py is Application.antt: `lifespan` and `health`; app/core/middleware.py is
--   Application/Middleware.antt.
-- * The revisions of alembic/versions are Migrations.antt: `upgrade_initial` and `downgrade_initial`
--   of 04b2b242144f_initial_schema.py, `upgrade_history` and `downgrade_history` of
--   0d5c4492046a_add_price_history_dead_letter_last_.py, each a list of the calls of `op`.
-- * app/api/v1/endpoints/insights.py and app/grpc_server/insight_servicer.py are Transports.antt.
-- * app/core/exceptions.py is Errors.antt (the classes) and Errors/Handlers.antt (the responses);
--   app/core/metrics.py is Metrics.antt.
--
-- Exec.antt has the monad of methods that change a state and may raise, and World.antt the state
-- that they share: Redis, the database, the metrics, the breakers and two clocks. Json.antt has
-- the values that are cached.
--
-- Parameters: Redis, SQL, httpx, Anthropic, PyJWT, bcrypt, pydantic's reading and writing of a
-- time, and what other tasks do while one waits. The records RedisLaws, TableLaws, QueriesLaws,
-- Texts, Libraries, Pydantic and Schema say what is relied on; Redis/Memory.antt, Sql/Memory.antt
-- and the files of Tests fill them. What PostgreSQL does with the statement of a migration is
-- Migrations/Effects.antt. A Redis command and a database statement are assumed to answer, but for
-- the commits of `get_db` and of the background refresh, and a key does not expire in the middle of
-- one call of `cache_get_or_set` unless `others` or an event of the schedule says so. While a
-- session of the worker is open, only its own statements are taken to change the database: its
-- commit puts its view in the place of the database. The user of a watchlist
-- request is taken to exist, as the check of
-- the access token makes sure, so that of the two foreign keys of an item only that of the coin is
-- looked at. Passwords are taken to have no NUL character, which passlib refuses to hash.
--
-- Bounds: only `digits` of Limits/Text.antt runs on fuel, which is one more than the number whose
-- digits it writes; `int-str` shows that this is enough. The loop of a waiting task has the
-- `lock_timeout * 10` rounds of the source, the worker its three attempts for each of two pages;
-- `poll` recurs on them and gives a result for any number, and `run` recurs on the schedule. Times
-- are natural numbers: seconds for `time.monotonic()`, microseconds for `datetime.now()`. A UUID is
-- the number that it stands for, and a float a whole number of a fixed unit.
--
-- Not modelled: log output (app/core/logging.py) but for the line of a request, the generated gRPC
-- stubs and the server of app/grpc_server/server.py, alembic/env.py, the dispatch of FastAPI and
-- the sending of its responses, and the deployment; they keep no state that the theorems speak of.
-- Requests are counted against their limits by slowapi. `main` of the worker only hands
-- `run_refresh` and `tick_data_age` to a scheduler.
pub mod Prelude
pub mod Json
pub mod Limits
pub mod Errors
pub mod Exec
pub mod Metrics
pub mod Breaker
pub mod World
pub mod Redis
pub mod Cache
pub mod Provider
pub mod Insight
pub mod Sql
pub mod Users
pub mod Coins
pub mod Security
pub mod Auth
pub mod Access
pub mod CoinService
pub mod PriceHistory
pub mod Worker
pub mod RefreshEndpoint
pub mod HistoryService
pub mod Transports
pub mod Idempotency
pub mod Watchlist
pub mod Database
pub mod Passwords
pub mod Application
pub mod CoinEndpoints
pub mod Routes
pub mod Migrations
mod Tests
