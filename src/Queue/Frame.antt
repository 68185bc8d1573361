-- ===== src/Queue/Frame.antt =====
-- The calls of the queue reach Redis or RabbitMQ only, and leave all else alone.
use high_throughput_notifica.Prelude.{ℕ, Option, none, some}
use high_throughput_notifica.Exec.Keeps.{Keeps, Keeps-raise, keeps_rules}
use high_throughput_notifica.Services.{Services, World}
use high_throughput_notifica.Services.Frame.{
  BesideBroker, BesideRedis, on_redis-frame, on_broker-frame,
}
use high_throughput_notifica.Queue.{
  set_rmq, connection_is_down, channel_is_down, reconnect, reopen, stored_channel, try_channel,
  get_rabbitmq_channel, try_publish_retry, publish_retry, close_existing, close_rabbitmq, enqueue,
}

module _ (E : Services) (P : BesideBroker E) where
  abbrev Beside : World E → Type 0
  Beside w = P w.db w.redis w.outside

  set_rmq-frame :
      (c : Option E.broker.Connection) (h : Option E.broker.Channel)
      → Keeps Beside (set_rmq {E = E} c h)
  unfolding set_rmq
  set_rmq-frame c h = record { at = λ w p. p }

  connection_is_down-frame :
      (c : Option E.broker.Connection) → Keeps Beside (connection_is_down {E = E} c)
  unfolding connection_is_down
  connection_is_down-frame none = search keeps_rules
  connection_is_down-frame (some c) = Keeps-raise _

  channel_is_down-frame : (c : Option E.broker.Channel) → Keeps Beside (channel_is_down {E = E} c)
  unfolding channel_is_down
  channel_is_down-frame none = search keeps_rules
  channel_is_down-frame (some c) = Keeps-raise _

  ruleset frame_rules =
      (keeps_rules, set_rmq-frame, connection_is_down-frame, channel_is_down-frame)

  reconnect-frame : Keeps Beside (reconnect {E = E})
  unfolding reconnect
  reconnect-frame = search (frame_rules, on_broker-frame E P) depth 9

  reopen-frame : (c : Option E.broker.Connection) → Keeps Beside (reopen {E = E} c)
  unfolding reopen
  reopen-frame none = search keeps_rules
  reopen-frame (some c) = search (frame_rules, on_broker-frame E P) depth 9

  stored_channel-frame : (h : Option E.broker.Channel) → Keeps Beside (stored_channel {E = E} h)
  unfolding stored_channel
  stored_channel-frame none = search keeps_rules
  stored_channel-frame (some h) = search keeps_rules

  try_channel-frame : Keeps Beside (try_channel {E = E})
  unfolding try_channel
  try_channel-frame = search (frame_rules, reconnect-frame, reopen-frame) depth 12

  get_rabbitmq_channel-frame : Keeps Beside (get_rabbitmq_channel {E = E})
  unfolding get_rabbitmq_channel
  get_rabbitmq_channel-frame = search (frame_rules, try_channel-frame) depth 9

  try_publish_retry-frame : (i d : ℕ) → Keeps Beside (try_publish_retry {E = E} i d)
  unfolding try_publish_retry
  try_publish_retry-frame i d =
      search (frame_rules, get_rabbitmq_channel-frame, stored_channel-frame, on_broker-frame E P)
        depth 12

  pub publish_retry-frame : (i d : ℕ) → Keeps Beside (publish_retry {E = E} i d)
  unfolding publish_retry
  publish_retry-frame i d = search (frame_rules, try_publish_retry-frame)

  close_existing-frame : (c : Option E.broker.Connection) → Keeps Beside (close_existing {E = E} c)
  unfolding close_existing
  close_existing-frame none = search keeps_rules
  close_existing-frame (some c) = search (frame_rules, on_broker-frame E P) depth 9

  pub close_rabbitmq-frame : Keeps Beside (close_rabbitmq {E = E})
  unfolding close_rabbitmq
  close_rabbitmq-frame = search (frame_rules, close_existing-frame) depth 9

module _ (E : Services) (P : BesideRedis E) where
  pub enqueue-frame : (t i p : ℕ) → Keeps (λ w. P w.db w.broker w.outside) (enqueue {E = E} t i p)
  unfolding enqueue
  enqueue-frame t i p = search (keeps_rules, on_redis-frame E P) depth 9
