-- ===== src/Services/Running.antt =====
-- The services together, and the state of the running program: theirs, the connection and channel
-- that a QueueService keeps, and what the providers of the channels keep.
use high_throughput_notifica.Prelude.{ℕ, Option, List}
use high_throughput_notifica.Exec.{Exec}
use high_throughput_notifica.Services.Sql.{Database}
use high_throughput_notifica.Services.KeyStore.{Redis}
use high_throughput_notifica.Services.Amqp.{Broker, Publication}

pub record Services : Type 1 where
  pub database : Database
  pub redis : Redis
  pub broker : Broker
  pub Outside : Type 0

pub record World (E : Services) : Type 0 where
  pub db : E.database.Db
  pub redis : E.redis.State
  pub broker : E.broker.State
  pub rmq_connection : Option E.broker.Connection
  pub rmq_channel : Option E.broker.Channel
  pub outside : E.Outside
  -- the identifiers of the objects that the session of the current request has expired
  pub expired : List ℕ

-- What the broker has accepted so far.
abbrev pub publications : {E : Services} → World E → List Publication
publications {E} w = E.broker.published w.broker

module _ {E : Services} {A : Type 0} where
  unfoldable pub on_db : Exec E.database.Db A → Exec (World E) A
  on_db m w = let (r, s) = m w.db in (r, record w { db = s })

  unfoldable pub on_redis : Exec E.redis.State A → Exec (World E) A
  on_redis m w = let (r, s) = m w.redis in (r, record w { redis = s })

  unfoldable pub on_broker : Exec E.broker.State A → Exec (World E) A
  on_broker m w = let (r, s) = m w.broker in (r, record w { broker = s })

  unfoldable pub on_outside : Exec E.Outside A → Exec (World E) A
  on_outside m w = let (r, s) = m w.outside in (r, record w { outside = s })
