-- ===== src/Services/Wiring.antt =====
-- RabbitMQ for a consumer: its exchanges, queues, bindings and consumers, and the way of a message.
use high_throughput_notifica.Prelude.{ℕ, String, ◌≡◌, ◌||◌, Bool, false, Option, none, some, ◌==◌}
use Prim.Native.Char.{code}
use Prim.Native.String.{◌++◌ as text_append}
use high_throughput_notifica.Exec.{Exec, ok}
use high_throughput_notifica.Services.Amqp.{Broker, ExchangeType, fanout, topic, Publication}

-- What stands on the broker. A binding to a fanout exchange has no routing key.
pub data Fact (Callback : Type 0) : Type 0 where
  has_exchange : String → ExchangeType → Fact Callback
  has_queue : String → (dead_letter_exchange : Option String) → Fact Callback
  bound : (queue exchange : String) → (routing_key : Option String) → Fact Callback
  consumed : (queue : String) → Callback → Fact Callback

-- The calls of a consumer besides those of a publisher. A call that returns has made its fact stand,
-- and no call takes a fact away.
pub record Topology (B : Broker) (Callback : Type 0) : Type 1 where
  pub Stands : B.State → Fact Callback → Type 0
  pub set_qos : B.Channel → (prefetch_count : ℕ) → Exec B.State Unit
  pub bind : B.Channel → (queue exchange routing_key : String) → Exec B.State Unit
  pub consume : B.Channel → String → Callback → Exec B.State Unit
  pub exchange_ok :
      (c : B.Channel) (x : String) (t : ExchangeType) (s : B.State)
      → (B.declare_exchange c x t s).0 ≡ ok tt
      → Stands (B.declare_exchange c x t s).1 (has_exchange x t)
  pub queue_ok :
      (c : B.Channel) (q : String) (d : Option String) (s : B.State)
      → (B.declare_queue c q d s).0 ≡ ok tt
      → Stands (B.declare_queue c q d s).1 (has_queue q d)
  pub bind_queue_ok :
      (c : B.Channel) (q x : String) (s : B.State)
      → (B.bind_queue c q x s).0 ≡ ok tt
      → Stands (B.bind_queue c q x s).1 (bound q x none)
  pub bind_ok :
      (c : B.Channel) (q x k : String) (s : B.State)
      → (bind c q x k s).0 ≡ ok tt
      → Stands (bind c q x k s).1 (bound q x (some k))
  pub consume_ok :
      (c : B.Channel) (q : String) (f : Callback) (s : B.State)
      → (consume c q f s).0 ≡ ok tt
      → Stands (consume c q f s).1 (consumed q f)
  pub exchange_keeps :
      (c : B.Channel) (x : String) (t : ExchangeType) (s : B.State) (a : Fact Callback)
      → Stands s a
      → Stands (B.declare_exchange c x t s).1 a
  pub queue_keeps :
      (c : B.Channel) (q : String) (d : Option String) (s : B.State) (a : Fact Callback)
      → Stands s a
      → Stands (B.declare_queue c q d s).1 a
  pub bind_queue_keeps :
      (c : B.Channel) (q x : String) (s : B.State) (a : Fact Callback)
      → Stands s a
      → Stands (B.bind_queue c q x s).1 a
  pub bind_keeps :
      (c : B.Channel) (q x k : String) (s : B.State) (a : Fact Callback)
      → Stands s a
      → Stands (bind c q x k s).1 a
  pub consume_keeps :
      (c : B.Channel) (q : String) (f : Callback) (s : B.State) (a : Fact Callback)
      → Stands s a
      → Stands (consume c q f s).1 a

abbrev pub has_dot : String → Bool
has_dot String.[] = false
has_dot (String.◌∷◌ c s) = code c == b'.' || has_dot s

-- A pattern of a topic exchange that ends in a star takes one word there.
pub data TopicMatch (pattern key : String) : Type 0 where
  star :
      (before word : String)
      → pattern ≡ text_append before ".*"
      → key ≡ text_append before (text_append "." word)
      → has_dot before ≡ false
      → has_dot word ≡ false
      → TopicMatch pattern key

-- The way of a publication to a consumer: through a topic exchange, or by the default exchange into
-- the queue of its routing key and, when it expires there, on through the fanout exchange that takes
-- the dead letters of that queue.
pub data Reaches {B : Broker} {Callback : Type 0} (T : Topology B Callback) (s : B.State)
    (p : Publication) (f : Callback) : Type 0 where
  by_topic :
      (queue pattern : String)
      → T.Stands s (has_exchange p.exchange topic)
      → T.Stands s (bound queue p.exchange (some pattern))
      → TopicMatch pattern p.routing_key
      → T.Stands s (consumed queue f)
      → Reaches T s p f
  by_expiry :
      (dead_letter_exchange queue : String) (seconds : ℕ)
      → p.exchange ≡ ""
      → p.message.expiration ≡ some seconds
      → T.Stands s (has_queue p.routing_key (some dead_letter_exchange))
      → T.Stands s (has_exchange dead_letter_exchange fanout)
      → T.Stands s (bound queue dead_letter_exchange none)
      → T.Stands s (consumed queue f)
      → Reaches T s p f
