-- ===== src/Lib.antt =====
-- Verification library of the notification engine: the parts of app/ that decide what happens to a
-- notification, from the request or the event that asks for it to the delivery that ends it.
--
-- The program. A request names an event (app/schemas/notification_request.py). The manager
-- (app/managers/notification_manager.py) takes it once per idempotency key, makes one row for each
-- channel of the event (app/event_channel_map.py) and puts the identifier of each row into a priority
-- queue in Redis (app/services/queue_service.py). A worker takes an identifier out and dispatches it
-- (app/services/dispatch_service.py): the provider of its channel (app/providers/base.py) is asked to
-- deliver, and the row is marked as sent, failed or retrying. A retry waits in RabbitMQ for an
-- exponentially growing time, and the handler of expired messages (app/handlers/rabbitmq_handler.py),
-- which also takes the events, puts it back into the queue; a notification whose retries are used up
-- goes to a dead-letter queue.
--
-- How it is modelled.
--   Exec        a coroutine is a function from a state to a result, a value or an exception, and a
--               state, with `try`, `except` and `async with`; Exec/Keeps and Exec/Ends are its logic
--   Model       enumerations with their values and names, JSON, the row and its text, the channel
--               map
--   Services    PostgreSQL behind SQLAlchemy, Redis and RabbitMQ are code of others: records of
--               operations with laws. `World` is their state together, with the connection that a
--               QueueService keeps and a state that the providers share. `Reliable` says that the
--               database answers
--   Repository  the class NotificationRepository, its queries in Repository/Listing; the proofs in
--               Repository/Table and /Total
--   Queue       the class QueueService; the proofs in Queue/Frame, /Order and /Publish
--   Retry       RETRY_CONFIG and get_retry_delay, the proofs in Retry/Windows
--   Provider    the interface BaseProvider; Provider/Mock is the three mock providers, and
--               Provider/Mock/Contract their contract
--   Dispatch    the class DispatchService; its proofs in Dispatch/Frame, /Lifecycle, /Held,
--               /Progress, /Attempt, /Writes, /Outcome, /Settles and /Redis
--   Request     the validators of NotificationCreate, on texts that Text turns to lower or upper
--               case; the proofs in Request/Valid
--   Manager     the class NotificationManager, with list_notifications in Manager/Listing; its
--               proofs in Manager/Once, /Kept, /Dated, /Inserts, /Every, /Rows, /Made, /Loop, /Grows,
--               /Queued and /Again, and in Manager/Listing/Filter and /Page
--   Event       the reading of an event's body, in app/handlers/rabbitmq_handler.py
--   Handler     the class RabbitMQHandler: its callbacks, and its start and stop in Handler/Start;
--               the proofs in Handler/Verdict, /Rows, /Started and /Routes
--   Worker      the loop of app/workers/notification_worker.py, and in Worker/Pool its start and
--               stop; the proofs in Worker/Rows, /Carried, /Tasks, /Lost, /Members, /Waiting, /Round
--               and /Drained
--   System      the operations as steps of the running program, in any order; the proofs in
--               System/Retried, /Rows, /Requeued, /History, /Limit, /Typed, /Holding and /Handled
--   App         app/main.py: the providers of the application, the routes /health/providers and
--               /metrics, and in App/Lifespan the start and the stop of the whole; the proofs in
--               App/Ends, /Uptime, /Shutdown and /Lifetime
--   Migration   alembic/versions/0001_create_notifications_table.py and, in Migration/Env,
--               alembic/env.py; Migration/Mapped is the class of the table, Migration/Schema and
--               /Ddl the words and the catalogue of the database; the proofs in Migration/Views,
--               /Online and /Same
--   Response    app/schemas/notification_response.py: the labels and conversions of the answers, the
--               proofs in Response/Labels
--   Controller  app/controllers/notification_controller.py and app/handlers/exception_handler.py: the
--               routes, from a request that the framework has validated to a reply; the proofs in
--               Controller/Created, /Refused and /Retry
--   Publisher   scripts/publisher.py: the sample events in Publisher/Events, the two runs; the proofs
--               in Publisher/Accepted and /Sent
--   Decimal     `str` and `int` on numbers
--   Samples     small services that meet the laws; Tests runs the definitions on them
-- The clock, the draw of random.randint and the time stamps are arguments. Every operation is one
-- sequence of calls: two coroutines that interleave are two runs on the same world, one after the
-- other. There is no fuel: every loop goes over a list, and the worker's loop over the rounds until it
-- is stopped. `json.loads` and the answers ack and nack are parameters of the handler.
--
-- A session is modelled by the objects that a rollback has expired, which the answer cannot read. The
-- tasks of the pool are not interleaved inside a round: a world is what rounds in a row make of it, and
-- nothing is said of two rounds that overlap.
--
-- Not modelled: log lines, the framework's settings, the pauses of the publisher script, and the time
-- that passes in Redis: a key that expires is one that a later state has no more. The limit and the
-- offset of a listing are natural numbers. Text.lower and Text.upper change ASCII letters, and the
-- other characters that Python maps to ASCII letters. The schema knows of a database what the names
-- of the migration stand for: rows, the index and the sequence that a primary key brings along, and
-- what alembic notes in its own table, are outside of its view.
pub mod Prelude
pub mod Exec
pub mod Model
pub mod Decimal
pub mod Services
pub mod Queue
pub mod Repository
pub mod Retry
pub mod Provider
pub mod Dispatch
pub mod Text
pub mod Request
pub mod Event
pub mod Manager
pub mod Handler
pub mod Worker
pub mod Response
pub mod Controller
pub mod Publisher
pub mod System
pub mod Migration
pub mod App
pub mod Samples
pub mod Tests
