-- ===== src/Controller.antt =====
-- app/controllers/notification_controller.py, the routes of the REST interface, and
-- app/handlers/exception_handler.py, what becomes of an exception that a route raises. A route is
-- called with a request that the framework has validated.
pub mod Created
pub mod Refused
pub mod Retry
use high_throughput_notifica.Prelude.{
  ℕ, String, Bool, true, false, Option, none, some, List, [], ◌∷◌, str_eq, not, ◌||◌, ◌==◌,
  if◌then◌else◌,
}
use high_throughput_notifica.Exec.{
  Exec, Exception, value_error, attribute_error, json_decode_error, other, Result, ok, err, pure,
  raise, lift, ◌>>=◌, ◌>>◌,
}
use high_throughput_notifica.Model.Json.{Json, text, object, field, end}
use high_throughput_notifica.Model.Row.{Notification}
use high_throughput_notifica.Services.{Services, World, Listing}
use high_throughput_notifica.Request.{NotificationCreate}
use high_throughput_notifica.Manager.{create_notification, get_notification, retry_notification}
use high_throughput_notifica.Manager.Listing.{Filters, list_notifications}
use high_throughput_notifica.Response.{
  NotificationCreatedResponse, NotificationDetailResponse, NotificationListResponse, RetryResponse,
  convert_status, convert_detail, convert_list,
}

-- An answer: its status code, and a body, or the detail of an error.
pub data Reply (A : Type 0) : Type 0 where
  answer : ℕ → A → Reply A
  problem : ℕ → Json → Reply A

abbrev cons_ok {ℓ} : {A : Type ℓ} → Result A → Result (List A) → Result (List A)
cons_ok (ok a) (ok l) = ok (a ∷ l)
cons_ok (ok a) (err e) = err e
cons_ok (err e) r = err e

-- `[convert(n) for n in notifications]`
unfoldable pub convert_all {ℓ κ} :
    {A : Type ℓ} {B : Type κ} → (A → Result B) → List A → Result (List B)
convert_all convert [] = ok []
convert_all convert (n ∷ rest) = cons_ok (convert n) (convert_all convert rest)

-- The framework makes the body by the `response_model`; if that fails it raises ResponseValidationError,
-- which is no ValueError.
unfoldable pub response_of {ℓ} : {A : Type ℓ} → Result A → Result A
response_of (ok a) = ok a
response_of (err e) = err (other 4)

unfoldable pub duplicate_detail : String → Json
duplicate_detail key = object (
    field "message" (text "duplicate request, notification already exists")
      (field "idempotency_key" (text key) end))

unfoldable pub is_in : ℕ → List ℕ → Bool
is_in i [] = false
is_in i (j ∷ rest) = i == j || is_in i rest

unfoldable pub any_expired : List ℕ → List Notification → Bool
any_expired expired [] = false
any_expired expired (n ∷ rest) = is_in n.id expired || any_expired expired rest

module _ {E : Services} where
  unfoldable pub open_session : Exec (World E) Unit
  open_session w = (ok tt, record w { expired = [] })

  -- `NotificationChannelStatus.model_validate(n)` reads the attributes; on an expired object that
  -- raises MissingGreenlet, as the session is asynchronous.
  unfoldable pub read_objects : List Notification → Exec (World E) Unit
  read_objects notifications w =
      if any_expired w.expired notifications then (err (other 6), w) else (ok tt, w)

  unfoldable pub created_reply :
      NotificationCreate
      → List Notification × Bool
      → Exec (World E) (Reply NotificationCreatedResponse)
  created_reply payload (notifications, true) =
      pure (problem 409 (duplicate_detail payload.idempotency_key))
  created_reply payload (notifications, false) = do
    read_objects notifications
    statuses ← lift (convert_all convert_status notifications)
    pure (
        answer 201 (record {
          idempotency_key = payload.idempotency_key;
          event_type = payload.event_type;
          notifications = statuses;
        }))

  -- POST /notifications
  unfoldable pub post_notification :
      (clock : ℕ → ℕ) → NotificationCreate → Exec (World E) (Reply NotificationCreatedResponse)
  post_notification clock payload = do
    open_session
    result ← create_notification clock payload
    created_reply payload result

  unfoldable pub found_reply :
      Option Notification → Exec (World E) (Reply NotificationDetailResponse)
  found_reply none = pure (problem 404 (text "Notification not found"))
  found_reply (some notification) = do
    body ← lift (response_of (convert_detail notification))
    pure (answer 200 body)

  -- GET /notifications/{id}
  unfoldable pub read_notification : ℕ → Exec (World E) (Reply NotificationDetailResponse)
  read_notification notification_id = do
    notification ← get_notification notification_id
    found_reply notification

  -- GET /notifications
  unfoldable pub read_notifications :
      Listing E.database
      → Filters
      → (limit offset : ℕ) → Exec (World E) (Reply (List NotificationListResponse))
  read_notifications L filters limit offset = do
    notifications ← list_notifications L filters limit offset
    body ← lift (response_of (convert_all convert_list notifications))
    pure (answer 200 body)

  unfoldable pub requeued_reply : Option Notification → Exec (World E) (Reply RetryResponse)
  requeued_reply none = raise attribute_error
  requeued_reply (some notification) = pure (
      answer 200 (record {
        id = notification.id;
        status = "pending";
        retry_count = notification.retry_count;
        message = "Notification requeued successfully";
      }))

  unfoldable pub retry_reply : Option Notification × String → Exec (World E) (Reply RetryResponse)
  retry_reply (notification, error) =
      if not (str_eq error "") then pure (problem 400 (text error)) else requeued_reply notification

  -- POST /notifications/{id}/retry
  unfoldable pub post_retry : (timestamp_ms : ℕ) → ℕ → Exec (World E) (Reply RetryResponse)
  post_retry timestamp_ms notification_id = do
    result ← retry_notification timestamp_ms notification_id
    retry_reply result

-- The two handlers; `str_of` is `str` of an exception. JSONDecodeError is a ValueError.
unfoldable pub handle_exception : {A : Type 0} → (str_of : Exception → String) → Exception → Reply A
handle_exception str_of value_error = problem 422 (text (str_of value_error))
handle_exception str_of json_decode_error = problem 422 (text (str_of json_decode_error))
handle_exception str_of e = problem 500 (text "Internal server error")

unfoldable pub handled : {A : Type 0} → (str_of : Exception → String) → Result (Reply A) → Reply A
handled str_of (ok reply) = reply
handled str_of (err e) = handle_exception str_of e
