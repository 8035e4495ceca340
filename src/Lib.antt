-- ===== src/Lib.antt =====
-- A model of the core of fast-kit, a FastAPI application kit, and its correctness.
--
-- The program is a set of modules (app/modules) on a shared core (app/core). A use case changes the
-- tables of its module in one database transaction and stages its domain events in the outbox table
-- of the same transaction (`durable_unit_of_work`, `publish_durable`). After the commit the outbox
-- is relayed to NATS JetStream and written to the event store; a worker consumes the stream, and
-- messages that cannot be handled go to a dead-letter stream and from there to a table.
--
-- Kit: results and methods, contracts of methods (`Ensures`), lists, texts and decimal numbers.
-- Events.Settings, Events.Values: the NATS settings of app/core/settings.py; Python values, events
--   and the runtime that the serializer asks.
-- Events.Serializer: app/core/event_serializer.py.
-- Events.Subjects: the names that app/core/nats_bus.py derives from event types and subjects.
-- Events.Database: the models of app/modules/event_outbox, the session, and the two transactional
--   boundaries of app/core/database.py. The world is the session's view of the tables, the tables
--   that are committed, the connection and what the broker stored. A session begins with what is
--   committed, and at its end what it did not commit is gone.
-- Events.Outbox: the repository of app/modules/event_outbox.
-- Events.Relay: `publish_durable` and the relay of app/core/nats_bus.py.
-- Events.Publishing: `publish`, `publish_raw` and the in-memory bus of app/core/event_bus.py.
-- Events.AdminApi: app/modules/event_outbox/api/router.py.
-- Events.Consumer: `_handle_message` and what it calls. Events.DeadLetters: the dead-letter consumer.
-- Ordering: app/modules/ordering, from the state machine to the requests. The session of the two
--   requests that write is `Depends(get_durable_session)`, and that function is under
--   `asynccontextmanager`; whether FastAPI enters the context manager that it returns is a
--   parameter, and if it does not, the request raises.
-- Otp: app/modules/otp, its entity, repository and use cases, with the entries of the cache.
-- Accounts: the rows, entities and exceptions of app/modules/user and app/modules/rbac, the tables as
--   a session sees them and as they are committed, and the entries of the cache.
-- Users: app/modules/user, its value objects, entity, repository, use cases and requests, with the
--   handler of app/modules/auth/infrastructure/event_handlers.py that drops cached credentials.
-- Auth.Tokens: the refresh of app/modules/auth/use_cases/refresh.py, app/core/jwt.py and the
--   blacklist. Auth.Login, Auth.Logout: the use cases of those names. Auth.Activation: the use cases
--   activate_account.py and send_activation_otp.py, on the users and the one-time passwords.
-- Auth.Guards: the dependencies `require_authenticated`, `require_authenticated_user` and
--   `require_permission` of app/modules/auth/api/dependencies.py. PyJWT and the password hasher are
--   parameters; the hypothesis on PyJWT is that a token's claims do not change.
-- Auth.Api: app/modules/auth/api/router.py and the answers of app/core/exception_handlers.py.
-- Rbac.Tables, Rbac.Repository: the joins and the statements of the repository of app/modules/rbac.
--   Rbac.UseCases, Rbac.Api: its use cases and its requests. Rbac.Coherence: the cached lists of
--   permissions and the committed tables. Rbac.Membership: the relation of who has which role.
-- Core.RateLimit: app/core/rate_limit.py on a counter of app/core/cache.py.
--
-- A method takes a state and gives a result and a state, also when it raises. The environment says
-- which statement fails and how each call of the broker ends; theorems hold for every environment
-- unless they name one. Texts that the code takes apart are lists of character codes; others are
-- native strings. Identifiers from `uuid4` and from sequences are fresh numbers, timestamps are
-- numbers, delays are in milliseconds. A request reads the clock once. The limit of the relay is
-- the one of the repository, 100 rows, and the redelivery is bounded by the delivery limit of the
-- settings.
--
-- For users, permissions, authentication and one-time passwords, a request has a session of
-- `get_db`: it starts from the committed tables, and what it does not commit is gone. The two
-- caches of the program are one Redis, as app/main.py builds them. The columns `created_at` and
-- `updated_at` are left out, and an exception is its class, with its text where two of a class
-- mean different things. Local handlers of an event cannot fail their publisher, as on the NATS
-- bus.
--
-- Not modelled: that reading a row of users checks its email and its phone number a second time,
-- spellings of a number that only Python's `int` reads, the order of rows that tie in an ORDER BY
-- (the model fixes one), HTTP schemas, rate limits in front of handlers, the handlers of the
-- activation, the creation of streams and consumers, logging, the profile, the admin pages, and
-- the modules for cars, owners and notifications.
pub mod Kit
pub mod Core
pub mod Ordering
pub mod Events
pub mod Otp
pub mod Auth
pub mod Accounts
pub mod Users
pub mod Rbac
