-- ===== src/Services/Amqp.antt =====
-- RabbitMQ behind aio_pika. The view is the sequence of publications that the broker has accepted.
use high_throughput_notifica.Prelude.{ℕ, String, ◌≡◌, Bool, Option, List, [], ◌∷◌, ◌++◌}
use high_throughput_notifica.Exec.{Exec, ok}
use high_throughput_notifica.Decimal.{Bytes}
use high_throughput_notifica.Model.Json.{Fields}

-- A text, or `json.dumps` of a dictionary.
pub data Body : Type 0 where
  raw : Bytes → Body
  dumped : Fields → Body

-- The arguments of `aio_pika.Message`; `expiration` is in seconds there.
pub record Message : Type 0 where
  pub body : Body
  pub persistent : Bool
  pub expiration : Option ℕ
  pub content_type : Option String

-- The default exchange has the empty name.
pub record Publication : Type 0 where
  pub exchange : String
  pub routing_key : String
  pub message : Message

pub data ExchangeType : Type 0 where
  fanout topic : ExchangeType

pub record Broker : Type 1 where
  pub State : Type 0
  pub Connection : Type 0
  pub Channel : Type 0
  pub published : State → List Publication
  pub connect : Exec State Connection
  pub open_channel : Connection → Exec State Channel
  -- a durable queue, with its dead-letter exchange if one is given
  pub declare_queue : Channel → String → Option String → Exec State Unit
  pub declare_exchange : Channel → String → ExchangeType → Exec State Unit
  pub bind_queue : Channel → String → String → Exec State Unit
  pub publish : Channel → Publication → Exec State Unit
  pub close : Connection → Exec State Unit
  -- only `publish` publishes, and it does so whenever it returns
  pub publish_ok :
      (c : Channel) (p : Publication) (s : State)
      → (publish c p s).0 ≡ ok tt
      → published (publish c p s).1 ≡ published s ++ p ∷ []
  pub connect_keeps : (s : State) → published (connect s).1 ≡ published s
  pub open_channel_keeps :
      (c : Connection) (s : State) → published (open_channel c s).1 ≡ published s
  pub declare_queue_keeps :
      (c : Channel) (q : String) (d : Option String) (s : State)
      → published (declare_queue c q d s).1 ≡ published s
  pub declare_exchange_keeps :
      (c : Channel) (x : String) (t : ExchangeType) (s : State)
      → published (declare_exchange c x t s).1 ≡ published s
  pub bind_queue_keeps :
      (c : Channel) (q x : String) (s : State) → published (bind_queue c q x s).1 ≡ published s
  pub close_keeps : (c : Connection) (s : State) → published (close c s).1 ≡ published s
