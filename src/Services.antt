-- ===== src/Services.antt =====
-- What the program calls and does not implement, as interfaces: PostgreSQL behind the SQLAlchemy
-- session, Redis, and RabbitMQ behind aio_pika. Each is a type of states, a view of them, the
-- operations that the code calls, and laws that state their documented behaviour. An operation may
-- raise at any time; a law speaks of the call that returns, or says that it speaks of both.
pub mod Frame
mod Sql
mod KeyStore
mod Amqp
mod Select
mod Wiring
mod Running
pub use Sql.*
unfoldable pub use Select.*
pub use KeyStore.*
pub use Amqp.*
pub use Wiring.*
unfoldable pub use Running.*
