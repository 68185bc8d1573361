-- ===== src/Publisher.antt =====
-- scripts/publisher.py: the script that plays the services which publish events.
pub mod Events
pub mod Accepted
pub mod Sent
use high_throughput_notifica.Prelude.{
  ℕ, suc, zero, String, Bool, true, none, some, List, [], ◌∷◌, ◌==◌, if◌then◌else◌,
}
use high_throughput_notifica.Exec.{Exec, pure, raise, lift, other, ◌>>=◌, ◌>>◌, try_finally}
use high_throughput_notifica.Event.{item}
use high_throughput_notifica.Model.Json.{Fields, object}
use high_throughput_notifica.Publisher.Events.{Sample, load_event}
use high_throughput_notifica.Services.{Broker, Publication, topic, dumped}

abbrev pub exchange_name : String
exchange_name = "notification.exchange"

unfoldable pub event_publication : String → Fields → Publication
event_publication routing_key event = record {
  exchange = exchange_name;
  routing_key = routing_key;
  message = record {
    body = dumped event;
    persistent = true;
    expiration = none;
    content_type = some "application/json";
  };
}

-- What `uuid.uuid4()` gives in the rounds of a run: the text of the key, and that of the device token.
pub record Draws : Type 0 where
  pub hex : ℕ → String
  pub token : ℕ → String

module _ (B : Broker) where
  -- After the publication the line that is printed reads the event's type.
  unfoldable pub publish_event : B.Channel → String → Fields → Exec B.State Unit
  publish_event channel routing_key event = do
    B.publish channel (event_publication routing_key event)
    event_type ← lift (item "event_type" (object event))
    pure tt

  unfoldable pub publish_samples : B.Channel → List Sample → Exec B.State Unit
  publish_samples channel [] = pure tt
  publish_samples channel (sample ∷ rest) = do
    publish_event channel sample.routing_key sample.event
    publish_samples channel rest

  unfoldable pub sample_session : List Sample → B.Connection → Exec B.State Unit
  sample_session samples connection = do
    channel ← B.open_channel connection
    B.declare_exchange channel exchange_name topic
    publish_samples channel samples

  unfoldable pub run_sample_events : List Sample → Exec B.State Unit
  run_sample_events samples = do
    connection ← B.connect
    try_finally (sample_session samples connection) (B.close connection)

  -- The rounds `i`, `i + 1`, … of the loop, `count` of them.
  unfoldable pub publish_load : Draws → B.Channel → (i count : ℕ) → Exec B.State Unit
  publish_load draws channel i zero = pure tt
  publish_load draws channel i (suc count) = do
    publish_event channel "order.created" (load_event i (draws.hex i) (draws.token i))
    publish_load draws channel (suc i) count

  -- `count / elapsed`, which raises ZeroDivisionError
  unfoldable pub rate_of : ℕ → Exec B.State Unit
  rate_of elapsed = if elapsed == 0 then raise (other 3) else pure tt

  unfoldable pub load_session : Draws → (count elapsed : ℕ) → B.Connection → Exec B.State Unit
  load_session draws count elapsed connection = do
    channel ← B.open_channel connection
    B.declare_exchange channel exchange_name topic
    publish_load draws channel 0 count
    rate_of elapsed

  -- `elapsed` is the time of the loop in microseconds.
  unfoldable pub run_load_test : Draws → (count elapsed : ℕ) → Exec B.State Unit
  run_load_test draws count elapsed = do
    connection ← B.connect
    try_finally (load_session draws count elapsed connection) (B.close connection)

  -- `--load-test` and `--count`
  unfoldable pub main :
      (load_test : Bool) → List Sample → Draws → (count elapsed : ℕ) → Exec B.State Unit
  main load_test samples draws count elapsed =
      if load_test then run_load_test draws count elapsed else run_sample_events samples
