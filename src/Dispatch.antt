-- ===== src/Dispatch.antt =====
-- app/services/dispatch_service.py: the class DispatchService. Log lines are left out: what they read
-- has been read or converted before them in the same call.
pub mod Frame
pub mod Lifecycle
pub mod Held
pub mod Progress
pub mod Attempt
pub mod Writes
pub mod Outcome
pub mod Settles
pub mod Redis
use Prim.Native.String.{◌++◌ as text_append}
use high_throughput_notifica.Prelude.{
  ℕ, ◌+◌, String, true, not, Option, none, some, [], ◌∷◌, ltb, ◌==◌, if◌then◌else◌, arith,
}
use high_throughput_notifica.Exec.{
  Exec, Result, ok, pure, lift, ◌>>=◌, ◌>>◌, try_except, try_finally,
}
use high_throughput_notifica.Decimal.{str}
use high_throughput_notifica.Model.Json.{Fields, text, number, field, end}
use high_throughput_notifica.Model.Enums.{
  queued, sent, failed, retrying, NotificationChannel, NotificationErrorCode, provider_down,
  unknown, EventType, error_value, channel_of_value, event_of_value, error_of_value, is_retryable,
}
use high_throughput_notifica.Model.Names.{event_name, channel_name, error_name, error_name_upper}
use high_throughput_notifica.Model.Row.{
  Notification, set_retry_count, set_error_code, set_external_id, set_stime,
}
use high_throughput_notifica.Services.{
  Services, World, Publication, fanout, dumped, on_broker, on_outside,
}
use high_throughput_notifica.Repository.{get_by_id, update_status}
use high_throughput_notifica.Queue.{publish_retry}
use high_throughput_notifica.Retry.{RetryConfig, retry_config, get_retry_delay}
use high_throughput_notifica.Provider.{ProviderResult, BaseProvider, Providers}

abbrev pub dlq_exchange : String
dlq_exchange = "notification.dlq.exchange"

abbrev pub dlq_queue : String
dlq_queue = "notification.dlq"

-- What a run reads from outside: the clock, the same instant as `isoformat` prints it, and the draw of
-- `random.randint`.
pub record Chance : Type 0 where
  pub now : ℕ
  pub now_iso : String
  pub draw : ℕ

unfoldable pub dlq_payload :
    Notification → NotificationErrorCode → EventType → NotificationChannel → String → Fields
dlq_payload n code event channel failed_at = field "notification_id" (number (str n.id)) (
    field "idempotency_key" (text n.idempotency_key) (
      field "event_type" (text (event_name event)) (
        field "channel" (text (channel_name channel)) (
          field "recipient" (text n.recipient) (
            field "error_code" (text (error_name code)) (
              field "retry_count" (number (str n.retry_count)) (
                field "failure_reason"
                  (text (text_append "Exhausted all retries. Last error: " (error_name_upper code)))
                  (field "failed_at" (text failed_at) end))))))))

unfoldable pub dlq_publication : Fields → Publication
dlq_publication payload = record {
  exchange = dlq_exchange;
  routing_key = "";
  message = record {
    body = dumped payload;
    persistent = true;
    expiration = none;
    content_type = some "application/json";
  };
}

-- `NotificationErrorCode(result.error_code) if result.error_code else NotificationErrorCode.UNKNOWN`
unfoldable pub result_error : Option ℕ → Result NotificationErrorCode
result_error none = ok unknown
result_error (some v) = if v == 0 then ok unknown else error_of_value v

module _ {E : Services} (chance : Chance) where
  unfoldable pub mark_sent : Notification → Option String → Exec (World E) Unit
  mark_sent n external_id = do
    update_status n.id sent (set_external_id external_id ∷ set_stime (some chance.now) ∷ [])
    pure tt

  unfoldable pub mark_failed : Notification → NotificationErrorCode → Exec (World E) Unit
  mark_failed n code = do
    update_status n.id failed (set_error_code (some (error_value code)) ∷ [])
    pure tt

  -- The body of `async with connection`.
  unfoldable pub publish_dead_letter :
      Notification → NotificationErrorCode → E.broker.Connection → Exec (World E) Unit
  publish_dead_letter n code connection = do
    channel ← on_broker {E = E} (E.broker.open_channel connection)
    on_broker {E = E} (E.broker.declare_exchange channel dlq_exchange fanout)
    on_broker {E = E} (E.broker.declare_queue channel dlq_queue none)
    on_broker {E = E} (E.broker.bind_queue channel dlq_queue dlq_exchange)
    event ← lift (event_of_value n.event_type)
    kind ← lift (channel_of_value n.channel)
    on_broker {E = E}
        (E.broker.publish channel (dlq_publication (dlq_payload n code event kind chance.now_iso)))

  unfoldable pub send_to_dlq : Notification → NotificationErrorCode → Exec (World E) Unit
  send_to_dlq n code =
      try_except
        (do
          connection ← on_broker {E = E} E.broker.connect
          try_finally (publish_dead_letter n code connection)
              (on_broker {E = E} (E.broker.close connection)))
        (λ e. pure tt)

  unfoldable pub give_up : Notification → NotificationErrorCode → Exec (World E) Unit
  give_up n code = do mark_failed n code; send_to_dlq n code

  unfoldable pub retry_later :
      Notification → NotificationErrorCode → RetryConfig → Exec (World E) Unit
  retry_later n code config = do
    let new_retry_count = n.retry_count + 1
    let delay =
        get_retry_delay chance.draw (n.retry_count + 1) (omega arith) config.base_delay
          config.max_delay config.use_jitter
    update_status n.id retrying
        (set_retry_count new_retry_count ∷ set_error_code (some (error_value code)) ∷ [])
    publish_retry n.id delay
    pure tt

  unfoldable pub schedule_retry : Notification → NotificationErrorCode → Exec (World E) Unit
  schedule_retry n code = do
    event ← lift (event_of_value n.event_type)
    let config = retry_config event
    if ltb config.max_retries (n.retry_count + 1) then give_up n code else retry_later n code config

  unfoldable pub settle : Notification → ProviderResult → Exec (World E) Unit
  settle n result = if result.success then mark_sent n result.external_id else do
    code ← lift (result_error result.error_code)
    if not (is_retryable code) then mark_failed n code else schedule_retry n code

  unfoldable pub deliver : Notification → BaseProvider E.Outside → Exec (World E) Unit
  deliver n provider = do
    update_status n.id queued []
    healthy ← on_outside {E = E} provider.health_check
    if not healthy
        then schedule_retry n provider_down
        else do result ← on_outside {E = E} (provider.send n.recipient n.content); settle n result

  unfoldable pub dispatch_to : Notification → Option (BaseProvider E.Outside) → Exec (World E) Unit
  dispatch_to n none = mark_failed n unknown
  dispatch_to n (some provider) = deliver n provider

  unfoldable pub dispatch_found : Providers E.Outside → Option Notification → Exec (World E) Unit
  dispatch_found providers none = pure tt
  dispatch_found providers (some n) = do
    channel ← lift (channel_of_value n.channel)
    dispatch_to n (providers channel)

  unfoldable pub dispatch : Providers E.Outside → ℕ → Exec (World E) Unit
  dispatch providers notification_id = do
    found ← get_by_id notification_id
    dispatch_found providers found
