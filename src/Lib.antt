-- ===== src/Lib.antt =====
-- The event-driven notification service: an API that accepts notifications, a PostgreSQL table that
-- holds them, a queue that hands their ids to workers, workers that deliver them through a provider,
-- and a reconciler that repairs what a crash leaves behind.
--
-- Parts and files:
--   Base            Boolean tests, lists, and strings as lists of code points.
--   Domain          internal/domain: Errors, Channel, Status, Recipient, Notification, Log, Delivery,
--                   Batch, each next to its Go file. An unknown string of a typed constant is a
--                   constructor of its own (`other_status` and so on), so the validity tests are not
--                   vacuous. A method with a pointer receiver returns the entity and its error.
--   Store           internal/adapters/postgres: the table as a list of rows, and its statements.
--   Queue           internal/adapters/asynq: the tasks and options that asynq is asked for.
--   Ports           internal/ports/ports.go: the calls as actions on one state, `World`, in an
--                   environment `Env` that answers for the clock, the ids, the limiter and the
--                   provider, and lets any call of an adapter fail before or after its effect.
--   Retry           the delays of internal/application and cmd/worker, on 64-bit durations.
--   Process         internal/application/process_notification.go: the worker's use case.
--   Batching        internal/application/create_batch.go and Create of batch_repository.go, whose
--                   transaction commits all its rows or none.
--   Http            internal/adapters/http: idempotency.go over the store of
--                   internal/adapters/redis/idempotency_store.go, problem.go and
--                   inbound_rate_limit.go. A handler is a function from a request to the calls that it
--                   makes of its writer; sha256 and JSON are parameters.
--   Templates       internal/domain/template.go, internal/application/{templates,render_template}.go
--                   and internal/adapters/postgres/template_repository.go, over a table of their own
--                   (`Shelf`); text/template is the parameter `Engine`, the collation `name_le`.
--   Providers       internal/adapters/provider/{registry,webhook}.go behind
--                   internal/infrastructure/circuit/breaker.go, as cmd/worker/main.go wires them. The
--                   network is a function on a state of its own; fmt, encoding/json and gobreaker are
--                   parameters.
--   Runs            the use cases of the other files, one after the other.
--   Conversion      the conversions of entities to rows and back of notification_repository.go; the
--                   parser of pgtype is a parameter.
--   Listing         internal/application/list_notifications.go, List and the cursors of
--                   internal/adapters/postgres/notification_repository.go, and their statement. What
--                   time, base64 and pgtype do is the parameter `Codec`.
--   System          the use cases interleaved: a step relation on the table, the workers between
--                   their claim and their update, and the other writers between their read and theirs.
--   Create, Cancel, Reconcile
--                   internal/application/{create,schedule,cancel}_notification.go and
--                   reconcile_stuck_notifications.go: the other use cases that write rows.
--   Hub             internal/adapters/websocket/hub.go: the subscriptions and the broadcast.
--   RateLimit       internal/adapters/redis/outbound_rate_limiter.go: the fixed window.
--   Tests           the theorems at concrete inputs.
--
-- The worker, the reconciler and the API meet in the table only: a worker wins a row by
-- `claim_row`, every later write is `update_row` with the status that the writer saw, and the queue
-- may deliver an id twice or not at all.
--
-- Loops are structural, so no fuel is used. Times are natural numbers of nanoseconds; durations are
-- the bit patterns of their int64. Patterns compiled by regexp are recursive tests on code points.
-- A length in bytes counts the UTF-8 bytes of the code points.
--
-- Not modelled: HTTP routing, the handlers and generated code, JSON, the connection pools, logging,
-- metrics exporters and tracing, configuration, the foreign key by which the deletion of a template empties
-- template_id of its notifications, and the third-party packages asynq, pgx, redis and gobreaker.
pub mod Base
pub mod Domain
pub mod Store
pub mod Queue
pub mod Ports
pub mod Retry
pub mod Process
pub mod Tests
pub mod Cancel
pub mod Reconcile
pub mod Create
pub mod Hub
pub mod RateLimit
pub mod System
pub mod Listing
pub mod Http
pub mod Conversion
pub mod Batching
pub mod Runs
pub mod Templates
pub mod Providers
