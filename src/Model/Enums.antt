-- ===== src/Model/Enums.antt =====
-- The integer enumerations of app/models/notification.py. `value` is the integer of a member,
-- `of_value` is the call `Enum(n)` of the class, which raises ValueError at any other integer.
use high_throughput_notifica.Prelude.{ℕ, ◌≡◌, refl, Bool, true, false, ◌==◌, if◌then◌else◌}
use high_throughput_notifica.Exec.{Result, ok, err, value_error}

pub data NotificationStatus : Type 0 where
  pending queued sent failed retrying : NotificationStatus

pub data NotificationChannel : Type 0 where
  email sms push : NotificationChannel

pub data NotificationPriority : Type 0 where
  critical high medium low : NotificationPriority

pub data SourceService : Type 0 where
  order payment shipping : SourceService

pub data EventType : Type 0 where
  order_created order_cancelled payment_confirmed payment_failed : EventType
  payment_otp_requested shipment_dispatched shipment_delivered shipment_delayed : EventType

pub data NotificationErrorCode : Type 0 where
  timeout provider_down rate_limited invalid_recipient : NotificationErrorCode
  invalid_token unknown : NotificationErrorCode

abbrev pub status_value : NotificationStatus → ℕ
status_value pending = 1
status_value queued = 2
status_value sent = 3
status_value failed = 4
status_value retrying = 5

abbrev pub channel_value : NotificationChannel → ℕ
channel_value email = 1
channel_value sms = 2
channel_value push = 3

abbrev pub priority_value : NotificationPriority → ℕ
priority_value critical = 1
priority_value high = 2
priority_value medium = 3
priority_value low = 4

abbrev pub source_value : SourceService → ℕ
source_value order = 1
source_value payment = 2
source_value shipping = 3

abbrev pub event_value : EventType → ℕ
event_value order_created = 1
event_value order_cancelled = 2
event_value payment_confirmed = 3
event_value payment_failed = 4
event_value payment_otp_requested = 5
event_value shipment_dispatched = 6
event_value shipment_delivered = 7
event_value shipment_delayed = 8

abbrev pub error_value : NotificationErrorCode → ℕ
error_value timeout = 1
error_value provider_down = 2
error_value rate_limited = 3
error_value invalid_recipient = 4
error_value invalid_token = 5
error_value unknown = 6

unfoldable pub status_of_value : ℕ → Result NotificationStatus
status_of_value n =
    if n == 1
    then ok pending
    else if n == 2
    then ok queued
    else if n == 3
    then ok sent
    else if n == 4
    then ok failed
    else if n == 5
    then ok retrying
    else err value_error

unfoldable pub priority_of_value : ℕ → Result NotificationPriority
priority_of_value n =
    if n == 1
    then ok critical
    else if n == 2
    then ok high
    else if n == 3
    then ok medium
    else if n == 4
    then ok low
    else err value_error

unfoldable pub source_of_value : ℕ → Result SourceService
source_of_value n =
    if n == 1
    then ok order
    else if n == 2
    then ok payment
    else if n == 3
    then ok shipping
    else err value_error

unfoldable pub channel_of_value : ℕ → Result NotificationChannel
channel_of_value n =
    if n == 1
    then ok email
    else if n == 2
    then ok sms
    else if n == 3
    then ok push
    else err value_error

unfoldable pub event_of_value : ℕ → Result EventType
event_of_value n =
    if n == 1
    then ok order_created
    else if n == 2
    then ok order_cancelled
    else if n == 3
    then ok payment_confirmed
    else if n == 4
    then ok payment_failed
    else if n == 5
    then ok payment_otp_requested
    else if n == 6
    then ok shipment_dispatched
    else if n == 7
    then ok shipment_delivered
    else if n == 8
    then ok shipment_delayed
    else err value_error

unfoldable pub error_of_value : ℕ → Result NotificationErrorCode
error_of_value n =
    if n == 1
    then ok timeout
    else if n == 2
    then ok provider_down
    else if n == 3
    then ok rate_limited
    else if n == 4
    then ok invalid_recipient
    else if n == 5
    then ok invalid_token
    else if n == 6
    then ok unknown
    else err value_error

-- Membership in `RETRYABLE_ERROR_CODES`.
unfoldable pub is_retryable : NotificationErrorCode → Bool
is_retryable timeout = true
is_retryable provider_down = true
is_retryable rate_limited = true
is_retryable unknown = true
is_retryable invalid_recipient = false
is_retryable invalid_token = false

pub channel_of_value-channel_value :
    (c : NotificationChannel) → channel_of_value (channel_value c) ≡ ok c
unfolding channel_of_value
channel_of_value-channel_value email = refl
channel_of_value-channel_value sms = refl
channel_of_value-channel_value push = refl

pub event_of_value-event_value : (e : EventType) → event_of_value (event_value e) ≡ ok e
unfolding event_of_value
event_of_value-event_value order_created = refl
event_of_value-event_value order_cancelled = refl
event_of_value-event_value payment_confirmed = refl
event_of_value-event_value payment_failed = refl
event_of_value-event_value payment_otp_requested = refl
event_of_value-event_value shipment_dispatched = refl
event_of_value-event_value shipment_delivered = refl
event_of_value-event_value shipment_delayed = refl

pub error_of_value-error_value : (c : NotificationErrorCode) → error_of_value (error_value c) ≡ ok c
unfolding error_of_value
error_of_value-error_value timeout = refl
error_of_value-error_value provider_down = refl
error_of_value-error_value rate_limited = refl
error_of_value-error_value invalid_recipient = refl
error_of_value-error_value invalid_token = refl
error_of_value-error_value unknown = refl
