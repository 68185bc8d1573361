-- ===== src/Request.antt =====
-- app/schemas/notification_request.py: the classes RecipientInfo and NotificationCreate.
pub mod Valid
use high_throughput_notifica.Prelude.{
  ℕ, String, Bool, true, false, ◌||◌, Option, none, some, List, [], ◌∷◌, str_eq, if◌then◌else◌,
}
use high_throughput_notifica.Exec.{Result, ok, err, value_error}
use high_throughput_notifica.Text.{lower, upper}
use high_throughput_notifica.Model.Json.{Json, Fields, get}
use high_throughput_notifica.Model.Enums.{
  NotificationChannel, critical, high, medium, low, order, payment, shipping, order_created,
  order_cancelled, payment_confirmed, payment_failed, payment_otp_requested, shipment_dispatched,
  shipment_delivered, shipment_delayed, source_value, event_value, priority_value,
}
use high_throughput_notifica.Model.Names.{
  channel_name, priority_name, source_name, event_name, priority_member, source_member,
  event_member,
}
use high_throughput_notifica.Model.Channels.{
  RecipientField, email_field, phone_field, device_token_field, event_channel_map,
  channel_recipient_field,
}

pub record RecipientInfo : Type 0 where
  pub email : Option String
  pub phone : Option String
  pub device_token : Option String

pub record NotificationCreate : Type 0 where
  pub idempotency_key : String
  pub source_service : String
  pub event_type : String
  pub priority : String
  pub recipient : RecipientInfo
  pub content : Fields

-- A validator's body goes on after a check that passed.
infixl 10 ◌>>=◌ ◌>>◌
abbrev pub ◌>>=◌ {ℓ} : {A B : Type ℓ} → Result A → (A → Result B) → Result B
err failure >>= rest = err failure
ok value >>= rest = rest value

abbrev pub ◌>>◌ {ℓ} : {B : Type ℓ} → Result (Unit {ℓ}) → Result B → Result B
check >> rest = check >>= λ _. rest

-- `getattr(recipient, field)`
unfoldable pub recipient_value : RecipientInfo → RecipientField → Option String
recipient_value r email_field = r.email
recipient_value r phone_field = r.phone
recipient_value r device_token_field = r.device_token

-- `text in {…}`
unfoldable pub is_one_of : String → List String → Bool
is_one_of text [] = false
is_one_of text (name ∷ rest) = str_eq text name || is_one_of text rest

abbrev pub source_names : List String
source_names = source_name order ∷ source_name payment ∷ source_name shipping ∷ []

abbrev pub event_names : List String
event_names =
    event_name order_created
    ∷ event_name order_cancelled
    ∷ event_name payment_confirmed
    ∷ event_name payment_failed
    ∷ event_name payment_otp_requested
    ∷ event_name shipment_dispatched
    ∷ event_name shipment_delivered
    ∷ event_name shipment_delayed
    ∷ []

abbrev pub priority_names : List String
priority_names =
    priority_name critical ∷ priority_name high ∷ priority_name medium ∷ priority_name low ∷ []

-- The body that the three field validators share: the lower-case text, if it is a name.
unfoldable pub allowed_name : List String → String → Result String
unfolding is_one_of
allowed_name allowed v = if is_one_of (lower v) allowed then ok (lower v) else err value_error

-- `not value`, for a text that may be missing
unfoldable pub is_blank : Option String → Bool
is_blank none = true
is_blank (some text) = str_eq text ""

unfoldable pub is_missing : Option Json → Bool
is_missing none = true
is_missing (some value) = false

-- One round of the loop: the recipient's field, then the content's key.
unfoldable pub check_channel : RecipientInfo → Fields → NotificationChannel → Result (Unit {0})
unfolding is_blank is_missing recipient_value channel_recipient_field get
check_channel recipient content channel =
    if is_blank (recipient_value recipient (channel_recipient_field channel))
    then err value_error
    else if is_missing (get (channel_name channel) content)
    then err value_error
    else ok tt

unfoldable pub check_channels :
    RecipientInfo → Fields → List NotificationChannel → Result (Unit {0})
check_channels recipient content [] = ok tt
check_channels recipient content (channel ∷ rest) = do
  check_channel recipient content channel
  check_channels recipient content rest

unfoldable pub validate_recipient_and_content : NotificationCreate → Result NotificationCreate
validate_recipient_and_content p = do
  event ← event_member (upper p.event_type)
  check_channels p.recipient p.content (event_channel_map event)
  ok p

-- The constructor `NotificationCreate(…)`: the field validators, then the validator of the model. An
-- error of the model is pydantic's ValidationError, which is a ValueError.
unfoldable pub make_create : NotificationCreate → Result NotificationCreate
make_create p = do
  source ← allowed_name source_names p.source_service
  event ← allowed_name event_names p.event_type
  priority ← allowed_name priority_names p.priority
  validate_recipient_and_content
      (record p { source_service = source; event_type = event; priority = priority })

unfoldable pub source_service_as_int : NotificationCreate → Result ℕ
source_service_as_int p = do s ← source_member (upper p.source_service); ok (source_value s)

unfoldable pub event_type_as_int : NotificationCreate → Result ℕ
event_type_as_int p = do e ← event_member (upper p.event_type); ok (event_value e)

unfoldable pub priority_as_int : NotificationCreate → Result ℕ
priority_as_int p = do q ← priority_member (upper p.priority); ok (priority_value q)
