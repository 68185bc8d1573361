-- ===== src/Model/Row.antt =====
-- The class Notification of app/models/notification.py: one row of the table `notifications`.
-- The enumeration columns are plain integers, as in the table. Times are seconds.
use high_throughput_notifica.Prelude.{ℕ, String, Option, List, [], ◌∷◌}
use high_throughput_notifica.Model.Json.{Json}
use high_throughput_notifica.Model.Enums.{NotificationStatus, status_value}

pub record Notification : Type 0 where
  pub id : ℕ
  pub idempotency_key : String
  pub source_service : ℕ
  pub event_type : ℕ
  pub channel : ℕ
  pub recipient : String
  pub priority : ℕ
  pub status : ℕ
  pub error_code : Option ℕ
  pub retry_count : ℕ
  pub next_retry_time : Option ℕ
  pub external_id : Option String
  pub content : Json
  pub ctime : Option ℕ
  pub mtime : Option ℕ
  pub stime : Option ℕ

-- The keyword arguments that the callers of `update_status` give.
pub data Assignment : Type 0 where
  set_retry_count : ℕ → Assignment
  set_error_code : Option ℕ → Assignment
  set_next_retry_time : Option ℕ → Assignment
  set_external_id : Option String → Assignment
  set_stime : Option ℕ → Assignment

-- `setattr(notification, key, value)`
unfoldable pub assign : Notification → Assignment → Notification
assign n (set_retry_count v) = record n { retry_count = v }
assign n (set_error_code v) = record n { error_code = v }
assign n (set_next_retry_time v) = record n { next_retry_time = v }
assign n (set_external_id v) = record n { external_id = v }
assign n (set_stime v) = record n { stime = v }

unfoldable pub assign_all : Notification → List Assignment → Notification
unfolding assign
assign_all n [] = n
assign_all n (a ∷ rest) = assign_all (assign n a) rest

-- `notification.status = status.value`, then the loop over the keyword arguments.
unfoldable pub with_status : Notification → NotificationStatus → List Assignment → Notification
unfolding assign_all
with_status n status kwargs = assign_all (record n { status = status_value status }) kwargs
