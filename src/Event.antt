-- ===== src/Event.antt =====
-- app/handlers/rabbitmq_handler.py: how the body of an event becomes a request. Its texts and its
-- dictionaries are checked by pydantic in the strict way in which it takes `str` and `dict`.
use high_throughput_notifica.Prelude.{String, Option, none, some}
use high_throughput_notifica.Exec.{Result, ok, err, key_error, value_error, type_error}
use high_throughput_notifica.Model.Json.{Json, null, text, object, Fields, get}
use high_throughput_notifica.Request.{RecipientInfo, NotificationCreate, make_create, ◌>>=◌}

unfoldable pub present : Option Json → Result Json
present (some value) = ok value
present none = err key_error

-- `body[key]`, where the body may be no dictionary
unfoldable pub item : String → Json → Result Json
item key (object fields) = present (get key fields)
item key _ = err type_error

unfoldable pub or_else : Json → Option Json → Json
or_else default none = default
or_else default (some value) = value

-- `body.get("priority", "medium")`; what is no dictionary has no `get`, but then `body[…]` has raised
unfoldable pub item_or : String → Json → Json → Result Json
item_or key default (object fields) = ok (or_else default (get key fields))
item_or key default _ = err type_error

-- a field `str`, a field `dict`, a field `Optional[str] = None`
unfoldable pub as_text : Json → Result String
as_text (text t) = ok t
as_text _ = err value_error

unfoldable pub as_dict : Json → Result Fields
as_dict (object fields) = ok fields
as_dict _ = err value_error

unfoldable pub as_optional : Option Json → Result (Option String)
as_optional none = ok none
as_optional (some null) = ok none
as_optional (some (text t)) = ok (some t)
as_optional (some _) = err value_error

unfoldable pub recipient_of_fields : Fields → Result RecipientInfo
recipient_of_fields fields = do
  email ← as_optional (get "email" fields)
  phone ← as_optional (get "phone" fields)
  device_token ← as_optional (get "device_token" fields)
  ok (record { email = email; phone = phone; device_token = device_token })

-- `RecipientInfo(**value)`
unfoldable pub recipient_of : Json → Result RecipientInfo
recipient_of (object fields) = recipient_of_fields fields
recipient_of _ = err type_error

-- The arguments from left to right, then the constructor's checks of their types and values.
unfoldable pub request_of : Json → Result NotificationCreate
request_of body = do
  idempotency_key ← item "idempotency_key" body
  source_service ← item "source_service" body
  event_type ← item "event_type" body
  priority ← item_or "priority" (text "medium") body
  recipient_value ← item "recipient" body
  recipient ← recipient_of recipient_value
  content ← item "content" body
  key_text ← as_text idempotency_key
  source_text ← as_text source_service
  event_text ← as_text event_type
  priority_text ← as_text priority
  content_fields ← as_dict content
  make_create (record {
    idempotency_key = key_text;
    source_service = source_text;
    event_type = event_text;
    priority = priority_text;
    recipient = recipient;
    content = content_fields;
  })
