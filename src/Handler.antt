-- ===== src/Handler.antt =====
-- app/handlers/rabbitmq_handler.py: the class RabbitMQHandler, the callbacks of its two queues. A
-- session's end changes no table, and is left out.
pub mod Verdict
pub mod Rows
pub mod Start
pub mod Started
pub mod Routes
use high_throughput_notifica.Prelude.{ℕ, Option, none, some, leb, if◌then◌else◌}
use high_throughput_notifica.Exec.{
  Exec, Exception, Result, key_error, json_decode_error, pure, lift, ◌>>=◌, ◌>>◌, try_except,
}
use high_throughput_notifica.Decimal.{Bytes, int}
use high_throughput_notifica.Event.{request_of}
use high_throughput_notifica.Model.Json.{Json}
use high_throughput_notifica.Model.Row.{Notification}
use high_throughput_notifica.Services.{Services, World, on_outside}
use high_throughput_notifica.Repository.{get_by_id}
use high_throughput_notifica.Queue.{enqueue}
use high_throughput_notifica.Manager.{create_notification}

abbrev pub max_delivery_attempts : ℕ
max_delivery_attempts = 3

-- `ack()`, `nack(requeue=False)` and `nack(requeue=True)`
pub data Answer : Type 0 where
  ack drop requeue : Answer

-- A delivery: its body, and the header x-delivery-count, which is 0 if the broker sets none.
pub record Incoming : Type 0 where
  pub body : Bytes
  pub delivery_count : ℕ

-- `answer` settles a delivery, and `loads` is `json.loads` of the decoded body.
module _ {E : Services} (answer : Answer → Exec E.Outside Unit) where
  -- The `try` block: create the notifications, then acknowledge.
  unfoldable pub take_event :
      (loads : Bytes → Result Json) (clock : ℕ → ℕ) → Incoming → Exec (World E) Unit
  take_event loads clock message = do
    body ← lift (loads message.body)
    payload ← lift (request_of body)
    created ← create_notification clock payload
    on_outside {E = E} (answer ack)

  -- The three `except` clauses.
  unfoldable pub refuse : ℕ → Exception → Exec (World E) Unit
  refuse delivery_count json_decode_error = on_outside {E = E} (answer drop)
  refuse delivery_count key_error = on_outside {E = E} (answer drop)
  refuse delivery_count e =
      if leb max_delivery_attempts delivery_count
      then on_outside {E = E} (answer drop)
      else on_outside {E = E} (answer requeue)

  unfoldable pub on_new_event :
      (loads : Bytes → Result Json) (clock : ℕ → ℕ) → Incoming → Exec (World E) Unit
  on_new_event loads clock message =
      try_except (take_event loads clock message) (refuse message.delivery_count)

  unfoldable pub enqueue_found : (timestamp_ms : ℕ) → Option Notification → Exec (World E) Unit
  enqueue_found timestamp_ms none = pure tt
  enqueue_found timestamp_ms (some n) = do enqueue timestamp_ms n.id n.priority; pure tt

  unfoldable pub on_retry_event : (timestamp_ms : ℕ) → Incoming → Exec (World E) Unit
  on_retry_event timestamp_ms message =
      try_except
        (do
          notification_id ← lift (int message.body)
          found ← get_by_id notification_id
          enqueue_found timestamp_ms found
          on_outside {E = E} (answer ack))
        (λ e. on_outside {E = E} (answer drop))
