-- ===== src/Queue.antt =====
-- app/services/queue_service.py: the class QueueService. Its sorted set in Redis is the queue of the
-- workers; its RabbitMQ channel takes the messages that come back when their time to live is over.

pub mod Frame
pub mod Order
pub mod Publish
use high_throughput_notifica.Prelude.{
  ℕ, ◌+◌, ◌*◌, ◌^◌, String, Bool, true, false, Option, none, some, if◌then◌else◌,
}
use high_throughput_notifica.Exec.{
  Exec, ok, attribute_error, type_error, pure, raise, lift, gets, ◌>>=◌, ◌>>◌, try_except,
}
use high_throughput_notifica.Decimal.{Bytes, str, int}
use high_throughput_notifica.Services.{Services, World, Publication, raw, on_redis, on_broker}

abbrev pub queue_key : String
queue_key = "notification:queue"

abbrev pub retry_queue : String
retry_queue = "notification.retry"

abbrev pub retry_exchange : String
retry_exchange = "notification.retry.exchange"

-- `priority * (10 ** 12) + timestamp_ms`
unfoldable pub score_of : ℕ → ℕ → ℕ
score_of priority timestamp_ms = priority * 10 ^ 12 + timestamp_ms

-- The message that `publish_retry` sends, and where it goes.
unfoldable pub retry_publication : ℕ → ℕ → Publication
retry_publication notification_id delay_seconds = record {
  exchange = "";
  routing_key = retry_queue;
  message = record {
    body = raw (str notification_id);
    persistent = true;
    expiration = some delay_seconds;
    content_type = none;
  };
}

module _ {E : Services} where
  unfoldable pub set_rmq :
      Option E.broker.Connection → Option E.broker.Channel → Exec (World E) Unit
  set_rmq connection channel w =
      (ok tt, record w { rmq_connection = connection; rmq_channel = channel })

  -- `self._rmq_connection is None or self._rmq_connection.is_closed()`. In aio-pika `is_closed` is a
  -- property, and a call of its Boolean raises `TypeError`.
  unfoldable pub connection_is_down : Option E.broker.Connection → Exec (World E) Bool
  connection_is_down none = pure true
  connection_is_down (some connection) = raise type_error

  unfoldable pub channel_is_down : Option E.broker.Channel → Exec (World E) Bool
  channel_is_down none = pure true
  channel_is_down (some channel) = raise type_error

  -- A new connection, and a channel on it; the connection is stored before the channel is opened.
  unfoldable pub reconnect : Exec (World E) Unit
  reconnect = do
    connection ← on_broker {E = E} E.broker.connect
    channel ← gets (λ w. w.rmq_channel)
    set_rmq (some connection) channel
    opened ← on_broker {E = E} (E.broker.open_channel connection)
    set_rmq (some connection) (some opened)

  -- A new channel on the stored connection; `None.channel()` raises.
  unfoldable pub reopen : Option E.broker.Connection → Exec (World E) Unit
  reopen none = raise attribute_error
  reopen (some connection) = do
    opened ← on_broker {E = E} (E.broker.open_channel connection)
    set_rmq (some connection) (some opened)

  unfoldable pub stored_channel : Option E.broker.Channel → Exec (World E) E.broker.Channel
  stored_channel none = raise attribute_error
  stored_channel (some channel) = pure channel

  unfoldable pub try_channel : Exec (World E) (Option E.broker.Channel)
  try_channel = do
    connection ← gets (λ w. w.rmq_connection)
    down ← connection_is_down connection
    if down then reconnect else do
      channel ← gets (λ w. w.rmq_channel)
      gone ← channel_is_down channel
      if gone then reopen connection else pure tt
    gets (λ w. w.rmq_channel)

  unfoldable pub get_rabbitmq_channel : Exec (World E) (Option E.broker.Channel)
  get_rabbitmq_channel = try_except try_channel (λ e. set_rmq none none >> raise e)

  unfoldable pub try_publish_retry : ℕ → ℕ → Exec (World E) Bool
  try_publish_retry notification_id delay_seconds = do
    stored ← get_rabbitmq_channel
    channel ← stored_channel stored
    on_broker {E = E} (E.broker.declare_queue channel retry_queue (some retry_exchange))
    on_broker {E = E} (E.broker.publish channel (retry_publication notification_id delay_seconds))
    pure true

  unfoldable pub publish_retry : ℕ → ℕ → Exec (World E) Bool
  publish_retry notification_id delay_seconds =
      try_except (try_publish_retry notification_id delay_seconds) (λ e. pure false)

  unfoldable pub close_existing : Option E.broker.Connection → Exec (World E) Unit
  close_existing none = pure tt
  close_existing (some connection) = do
    closed ← connection_is_down (some connection)
    if closed then pure tt else do on_broker {E = E} (E.broker.close connection); set_rmq none none

  unfoldable pub close_rabbitmq : Exec (World E) Unit
  close_rabbitmq =
      try_except (do connection ← gets (λ w. w.rmq_connection); close_existing connection)
        (λ e. pure tt)

  -- `timestamp_ms` is what `int(time.time() * 1000)` gives at the call.
  unfoldable pub enqueue : ℕ → ℕ → ℕ → Exec (World E) Bool
  enqueue timestamp_ms notification_id priority =
      try_except
        (do
          on_redis {E = E}
              (E.redis.zadd_nx queue_key (str notification_id) (score_of priority timestamp_ms))
          pure true)
        (λ e. pure false)

  unfoldable pub member_id : Option (Bytes × ℕ) → Exec (World E) (Option ℕ)
  member_id none = pure none
  member_id (some (member, score)) = do
    notification_id ← lift (int member)
    pure (some notification_id)

  unfoldable pub dequeue : Exec (World E) (Option ℕ)
  dequeue =
      try_except (do result ← on_redis {E = E} (E.redis.bzpopmin queue_key); member_id result)
        (λ e. pure none)

  unfoldable pub depth : Exec (World E) ℕ
  depth = try_except (on_redis {E = E} (E.redis.zcard queue_key)) (λ e. pure 0)

  unfoldable pub remove : ℕ → Exec (World E) Unit
  remove notification_id =
      try_except (on_redis {E = E} (E.redis.zrem queue_key (str notification_id))) (λ e. pure tt)
