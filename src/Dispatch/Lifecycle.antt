-- ===== src/Dispatch/Lifecycle.antt =====
-- The steps that a dispatch may make with a notification, and the reasons of a failure.
use high_throughput_notifica.Prelude.{ℕ, ◌+◌, ◌≤◌, ◌<◌, ◌≡◌, ◌≢◌, false, String, Option, none, some}
use high_throughput_notifica.Exec.{ok}
use high_throughput_notifica.Model.Enums.{
  queued, sent, failed, retrying, NotificationErrorCode, NotificationChannel, channel_of_value,
  unknown, EventType, status_value, error_value, event_of_value, is_retryable,
}
use high_throughput_notifica.Model.Row.{Notification}
use high_throughput_notifica.Services.{Services, World}
use high_throughput_notifica.Repository.Table.{row}
use high_throughput_notifica.Provider.{Providers}
use high_throughput_notifica.Retry.{retry_config}

-- Why a notification is marked as failed with a code.
pub data Reason {S : Type 0} (providers : Providers S) (n : Notification)
    (code : NotificationErrorCode) : Type 0 where
  no_provider :
      (channel : NotificationChannel)
      → channel_of_value n.channel ≡ ok channel
      → providers channel ≡ none
      → code ≡ unknown
      → Reason providers n code
  permanent : is_retryable code ≡ false → Reason providers n code
  exhausted :
      (event : EventType)
      → event_of_value n.event_type ≡ ok event
      → (retry_config event).max_retries < n.retry_count + 1
      → Reason providers n code

-- The row that a dispatch of `n` leaves; `t` is the time of the last write.
pub data Progress {S : Type 0} (providers : Providers S) (n m : Notification) : Type 0 where
  unchanged : m ≡ n → Progress providers n m
  marked_queued :
      (t : Option ℕ)
      → m ≡ record n { status = status_value queued; mtime = t }
      → Progress providers n m
  marked_sent :
      (t : Option ℕ) (external_id : Option String) (now : ℕ)
      → m ≡ record n {
        status = status_value sent;
        external_id = external_id;
        stime = some now;
        mtime = t;
      }
      → Progress providers n m
  marked_failed :
      (t : Option ℕ) (code : NotificationErrorCode)
      → Reason providers n code
      → m
        ≡ record n { status = status_value failed; error_code = some (error_value code); mtime = t }
      → Progress providers n m
  marked_retrying :
      (t : Option ℕ) (code : NotificationErrorCode) (event : EventType)
      → event_of_value n.event_type ≡ ok event
      → n.retry_count + 1 ≤ (retry_config event).max_retries
      → m ≡ record n {
        status = status_value retrying;
        retry_count = n.retry_count + 1;
        error_code = some (error_value code);
        mtime = t;
      }
      → Progress providers n m

-- What a dispatch of an identifier may leave of the table of `w`.
pub record Dispatched (E : Services) (providers : Providers E.Outside) (w : World E) (i : ℕ)
    (d : E.database.Db) : Type 0 where
  pub others : (j : ℕ) → i ≢ j → E.database.table d j ≡ row w j
  pub absent : row w i ≡ none → E.database.table d i ≡ none
  pub progress :
      (n : Notification)
      → row w i ≡ some n
      → (m : Notification) × (E.database.table d i ≡ some m) × Progress providers n m
