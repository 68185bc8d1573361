-- ===== src/Model/Names.antt =====
-- The names of the members of the enumerations: `member.name.lower()`, and `.name` of the error codes.
-- A `_member` function is the subscript `Enum[name]` of its class, which raises KeyError.
use high_throughput_notifica.Prelude.{String, str_eq, if◌then◌else◌}
use high_throughput_notifica.Exec.{Result, ok, err, key_error}
use high_throughput_notifica.Model.Enums.{
  NotificationStatus, pending, queued, sent, failed, retrying, NotificationChannel, email, sms,
  push, NotificationPriority, critical, high, medium, low, SourceService, order, payment, shipping,
  EventType, order_created, order_cancelled, payment_confirmed, payment_failed,
  payment_otp_requested, shipment_dispatched, shipment_delivered, shipment_delayed,
  NotificationErrorCode, timeout, provider_down, rate_limited, invalid_recipient, invalid_token,
  unknown,
}

abbrev pub status_name : NotificationStatus → String
status_name pending = "pending"
status_name queued = "queued"
status_name sent = "sent"
status_name failed = "failed"
status_name retrying = "retrying"

abbrev pub channel_name : NotificationChannel → String
channel_name email = "email"
channel_name sms = "sms"
channel_name push = "push"

abbrev pub priority_name : NotificationPriority → String
priority_name critical = "critical"
priority_name high = "high"
priority_name medium = "medium"
priority_name low = "low"

abbrev pub source_name : SourceService → String
source_name order = "order"
source_name payment = "payment"
source_name shipping = "shipping"

abbrev pub event_name : EventType → String
event_name order_created = "order_created"
event_name order_cancelled = "order_cancelled"
event_name payment_confirmed = "payment_confirmed"
event_name payment_failed = "payment_failed"
event_name payment_otp_requested = "payment_otp_requested"
event_name shipment_dispatched = "shipment_dispatched"
event_name shipment_delivered = "shipment_delivered"
event_name shipment_delayed = "shipment_delayed"

abbrev pub error_name : NotificationErrorCode → String
error_name timeout = "timeout"
error_name provider_down = "provider_down"
error_name rate_limited = "rate_limited"
error_name invalid_recipient = "invalid_recipient"
error_name invalid_token = "invalid_token"
error_name unknown = "unknown"

abbrev pub error_name_upper : NotificationErrorCode → String
error_name_upper timeout = "TIMEOUT"
error_name_upper provider_down = "PROVIDER_DOWN"
error_name_upper rate_limited = "RATE_LIMITED"
error_name_upper invalid_recipient = "INVALID_RECIPIENT"
error_name_upper invalid_token = "INVALID_TOKEN"
error_name_upper unknown = "UNKNOWN"

unfoldable pub status_member : String → Result NotificationStatus
status_member name =
    if str_eq name "PENDING"
    then ok pending
    else if str_eq name "QUEUED"
    then ok queued
    else if str_eq name "SENT"
    then ok sent
    else if str_eq name "FAILED"
    then ok failed
    else if str_eq name "RETRYING"
    then ok retrying
    else err key_error

unfoldable pub channel_member : String → Result NotificationChannel
channel_member name =
    if str_eq name "EMAIL"
    then ok email
    else if str_eq name "SMS"
    then ok sms
    else if str_eq name "PUSH"
    then ok push
    else err key_error

unfoldable pub priority_member : String → Result NotificationPriority
priority_member name =
    if str_eq name "CRITICAL"
    then ok critical
    else if str_eq name "HIGH"
    then ok high
    else if str_eq name "MEDIUM"
    then ok medium
    else if str_eq name "LOW"
    then ok low
    else err key_error

unfoldable pub source_member : String → Result SourceService
source_member name =
    if str_eq name "ORDER"
    then ok order
    else if str_eq name "PAYMENT"
    then ok payment
    else if str_eq name "SHIPPING"
    then ok shipping
    else err key_error

unfoldable pub event_member : String → Result EventType
event_member name =
    if str_eq name "ORDER_CREATED"
    then ok order_created
    else if str_eq name "ORDER_CANCELLED"
    then ok order_cancelled
    else if str_eq name "PAYMENT_CONFIRMED"
    then ok payment_confirmed
    else if str_eq name "PAYMENT_FAILED"
    then ok payment_failed
    else if str_eq name "PAYMENT_OTP_REQUESTED"
    then ok payment_otp_requested
    else if str_eq name "SHIPMENT_DISPATCHED"
    then ok shipment_dispatched
    else if str_eq name "SHIPMENT_DELIVERED"
    then ok shipment_delivered
    else if str_eq name "SHIPMENT_DELAYED"
    then ok shipment_delayed
    else err key_error
