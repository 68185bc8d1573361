-- ===== src/Response.antt =====
-- app/schemas/notification_response.py: the bodies of the answers. A missing `ctime`, which its schemas
-- do not allow, and a `content` that is no dictionary are validation errors.
pub mod Labels
use high_throughput_notifica.Prelude.{ℕ, String, Option, none, some, List, ◌==◌, if◌then◌else◌}
use high_throughput_notifica.Exec.{Result, ok, err, value_error}
use high_throughput_notifica.Text.{decimal}
use high_throughput_notifica.Event.{as_dict}
use high_throughput_notifica.Request.{◌>>=◌}
use high_throughput_notifica.Model.Json.{Fields}
use high_throughput_notifica.Model.Enums.{
  status_of_value, channel_of_value, priority_of_value, source_of_value, event_of_value,
  error_of_value,
}
use high_throughput_notifica.Model.Names.{
  status_name, channel_name, priority_name, source_name, event_name, error_name,
}
use high_throughput_notifica.Model.Row.{Notification}

abbrev pub label_or {ℓ} : {M : Type ℓ} → (M → String) → Result M → String → String
label_or name (ok member) text = name member
label_or name (err e) text = text

-- `enum_class(value).name.lower()`, or `str(value)` if that raises.
unfoldable pub int_to_label {ℓ} : {M : Type ℓ} → (ℕ → Result M) → (M → String) → ℕ → String
int_to_label of_value name value = label_or name (of_value value) (decimal value)

pub record NotificationChannelStatus : Type 0 where
  pub id : ℕ
  pub channel : String
  pub status : String
  pub ctime : ℕ

pub record NotificationCreatedResponse : Type 0 where
  pub idempotency_key : String
  pub event_type : String
  pub notifications : List NotificationChannelStatus

pub record NotificationDetailResponse : Type 0 where
  pub id : ℕ
  pub idempotency_key : String
  pub source_service : String
  pub event_type : String
  pub channel : String
  pub recipient : String
  pub priority : String
  pub status : String
  pub error_code : Option String
  pub retry_count : ℕ
  pub next_retry_time : Option ℕ
  pub external_id : Option String
  pub content : Fields
  pub ctime : ℕ
  pub mtime : Option ℕ
  pub stime : Option ℕ

pub record NotificationListResponse : Type 0 where
  pub id : ℕ
  pub source_service : String
  pub event_type : String
  pub channel : String
  pub status : String
  pub priority : String
  pub recipient : String
  pub retry_count : ℕ
  pub ctime : ℕ
  pub stime : Option ℕ

pub record RetryResponse : Type 0 where
  pub id : ℕ
  pub status : String
  pub retry_count : ℕ
  pub message : String

-- a required `datetime`
unfoldable pub required : Option ℕ → Result ℕ
required none = err value_error
required (some time) = ok time

-- `int_to_label(…) if data.error_code else None`
unfoldable pub error_label : Option ℕ → Option String
error_label none = none
error_label (some code) =
    if code == 0 then none else some (int_to_label error_of_value error_name code)

-- `NotificationChannelStatus.convert`, and the checks of the fields
unfoldable pub convert_status : Notification → Result NotificationChannelStatus
convert_status row = do
  ctime ← required row.ctime
  ok (record {
    id = row.id;
    channel = int_to_label channel_of_value channel_name row.channel;
    status = int_to_label status_of_value status_name row.status;
    ctime = ctime;
  })

-- `NotificationDetailResponse.convert`, and the checks of the fields
unfoldable pub convert_detail : Notification → Result NotificationDetailResponse
convert_detail row = do
  content ← as_dict row.content
  ctime ← required row.ctime
  ok (record {
    id = row.id;
    idempotency_key = row.idempotency_key;
    source_service = int_to_label source_of_value source_name row.source_service;
    event_type = int_to_label event_of_value event_name row.event_type;
    channel = int_to_label channel_of_value channel_name row.channel;
    recipient = row.recipient;
    priority = int_to_label priority_of_value priority_name row.priority;
    status = int_to_label status_of_value status_name row.status;
    error_code = error_label row.error_code;
    retry_count = row.retry_count;
    next_retry_time = row.next_retry_time;
    external_id = row.external_id;
    content = content;
    ctime = ctime;
    mtime = row.mtime;
    stime = row.stime;
  })

-- `NotificationListResponse.convert`, and the checks of the fields
unfoldable pub convert_list : Notification → Result NotificationListResponse
convert_list row = do
  ctime ← required row.ctime
  ok (record {
    id = row.id;
    source_service = int_to_label source_of_value source_name row.source_service;
    event_type = int_to_label event_of_value event_name row.event_type;
    channel = int_to_label channel_of_value channel_name row.channel;
    status = int_to_label status_of_value status_name row.status;
    priority = int_to_label priority_of_value priority_name row.priority;
    recipient = row.recipient;
    retry_count = row.retry_count;
    ctime = ctime;
    stime = row.stime;
  })
