-- ===== src/Handler/Start.antt =====
-- app/handlers/rabbitmq_handler.py: `start` and `stop` of the class RabbitMQHandler.
use high_throughput_notifica.Prelude.{String, Bool, true, false, Option, none, some, List, [], ◌∷◌}
use high_throughput_notifica.Exec.{Exec, pure, ◌>>=◌, ◌>>◌, try_except}
use high_throughput_notifica.Services.{Broker, Topology, topic, fanout}

abbrev pub exchange_name : String
exchange_name = "notification.exchange"

abbrev pub retry_exchange : String
retry_exchange = "notification.retry.exchange"

abbrev pub queue_name : String
queue_name = "notification.queue"

abbrev pub retry_queue : String
retry_queue = "notification.retry"

abbrev pub retry_result_queue : String
retry_result_queue = "notification.retry.result"

abbrev pub routing_keys : List String
routing_keys = "order.*" ∷ "payment.*" ∷ "shipping.*" ∷ []

-- The methods that consume.
pub data Callback : Type 0 where
  on_new_event on_retry_event : Callback

-- The fields of a RabbitMQHandler, and the broker.
pub record Consumer (B : Broker) : Type 0 where
  pub connection : Option B.Connection
  pub channel : Option B.Channel
  pub running : Bool
  pub broker : B.State

module _ {B : Broker} where
  unfoldable pub with_broker : {A : Type 0} → Exec B.State A → Exec (Consumer B) A
  with_broker m h = let (r, s) = m h.broker in (r, record h { broker = s })

  unfoldable pub set_connection : B.Connection → Exec (Consumer B) Unit
  set_connection c h = pure tt (record h { connection = some c })

  unfoldable pub set_channel : B.Channel → Exec (Consumer B) Unit
  set_channel c h = pure tt (record h { channel = some c })

  unfoldable pub set_running : Bool → Exec (Consumer B) Unit
  set_running b h = pure tt (record h { running = b })

  unfoldable pub close_connection : Option B.Connection → Exec (Consumer B) Unit
  close_connection none = pure tt
  close_connection (some c) = with_broker (B.close c)

  unfoldable pub stop : Exec (Consumer B) Unit
  stop h = (set_running false >> close_connection h.connection) h

module _ {B : Broker} (T : Topology B Callback) where
  -- `for routing_key in ROUTING_KEYS: await queue.bind(exchange, routing_key=routing_key)`
  unfoldable pub bind_all : B.Channel → List String → Exec (Consumer B) Unit
  bind_all channel [] = pure tt
  bind_all channel (routing_key ∷ rest) = do
    with_broker (T.bind channel queue_name exchange_name routing_key)
    bind_all channel rest

  unfoldable pub declare_all : B.Channel → Exec (Consumer B) Unit
  declare_all channel = do
    with_broker (T.set_qos channel 100)
    with_broker (B.declare_exchange channel exchange_name topic)
    with_broker (B.declare_exchange channel retry_exchange fanout)
    with_broker (B.declare_queue channel queue_name none)
    bind_all channel routing_keys
    with_broker (B.declare_queue channel retry_queue (some retry_exchange))
    with_broker (B.declare_queue channel retry_result_queue none)
    with_broker (B.bind_queue channel retry_result_queue retry_exchange)
    with_broker (T.consume channel queue_name on_new_event)
    with_broker (T.consume channel retry_result_queue on_retry_event)

  -- The `try` block.
  unfoldable pub set_up : Exec (Consumer B) Unit
  set_up = do
    connection ← with_broker B.connect
    set_connection connection
    channel ← with_broker (B.open_channel connection)
    set_channel channel
    declare_all channel
    set_running true

  unfoldable pub start : Exec (Consumer B) Unit
  start = try_except set_up (λ e. pure tt)
