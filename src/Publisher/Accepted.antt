-- ===== src/Publisher/Accepted.antt =====
-- The events of the script, as the consumer of the events reads them.
use Prim.Native.Char.{Char}
use package.text.Mathlib.TextLemmas.{cons-append}
use Prim.Native.String.{◌++◌ as text_append}
use high_throughput_notifica.Prelude.{
  ℕ, ◌≡◌, refl, String, false, Bool-cases, inl, inr, str_eq, eq_iff, none, some,
}
use high_throughput_notifica.Exec.{ok}
use high_throughput_notifica.Text.{lower, upper, decimal}
use high_throughput_notifica.Model.Json.{Fields, object, get, field, text, end}
use high_throughput_notifica.Model.Enums.{SourceService, order}
use high_throughput_notifica.Model.Names.{event_member, source_name}
use high_throughput_notifica.Model.Channels.{event_channel_map, channel_recipient_field}
use high_throughput_notifica.Event.{
  request_of, item, item_or, or_else, present, as_text, as_dict, as_optional, recipient_of,
  recipient_of_fields,
}
use high_throughput_notifica.Request.{
  NotificationCreate, make_create, validate_recipient_and_content, check_channels, check_channel,
  allowed_name, is_one_of, recipient_value, is_blank, is_missing,
}
use high_throughput_notifica.Services.{has_dot}
use high_throughput_notifica.Publisher.Events.{load_event}

-- The event is a request that the validators let through, and its routing key is the name of its
-- source in lower case, a dot, and one word more, which is what the bindings order.*, payment.* and
-- shipping.* take.
pub record Accepted (routing_key : String) (event : Fields) : Type 0 where
  pub request : NotificationCreate
  pub is_request : request_of (object event) ≡ ok request
  pub source : SourceService
  pub is_source : request.source_service ≡ source_name source
  pub word : String
  pub is_key : routing_key ≡ text_append request.source_service (text_append "." word)
  pub one_word : has_dot word ≡ false

blank-cons : (c : Char) (s : String) → str_eq (String.◌∷◌ c s) "" ≡ false
blank-cons c s = elim (Bool-cases (str_eq (String.◌∷◌ c s) "")) [
  | inl e ↦ cc ((eq_iff (String.◌∷◌ c s) "").0 e)
  | inr e ↦ e
]

blank-append : (c : Char) (s t : String) → str_eq (text_append (String.◌∷◌ c s) t) "" ≡ false
blank-append c s t = rw cons-append (blank-cons c (text_append s t))

user_text : (t : String) → str_eq (text_append "user" t) "" ≡ false
user_text t = blank-append "u" "ser" t

token_text : (t : String) → str_eq (text_append "fcm-token-" t) "" ≡ false
token_text t = blank-append "f" "cm-token-" t

-- What the consumer makes of the event of a round.
unfoldable pub load_request : ℕ → (hex token : String) → NotificationCreate
load_request i hex token = record {
  idempotency_key = text_append "load-test-order-" hex;
  source_service = "order";
  event_type = "order_created";
  priority = "medium";
  recipient = record {
    email = some (text_append "user" (text_append (decimal i) "@gmail.com"));
    phone = none;
    device_token = some (text_append "fcm-token-" token);
  };
  content =
      field "email"
        (object (
          field "subject" (text (text_append "Order #" (text_append (decimal i) " Confirmed"))) (
            field "body"
              (text (text_append "Your order #" (text_append (decimal i) " has been confirmed.")))
              end)))
        (field "push"
          (object (
            field "title" (text "Order Confirmed") (
              field "body" (text (text_append "Order #" (text_append (decimal i) " confirmed.")))
                end)))
          end);
}

-- The event of every round of the load test, whatever number and texts it has, is a request that the
-- consumer accepts, and order.created is the name of its source, a dot and one word.
pub load_event-Accepted :
    (i : ℕ) (hex token : String) → Accepted "order.created" (load_event i hex token)
unfolding load_event request_of item item_or or_else present as_text as_dict as_optional
    recipient_of recipient_of_fields make_create validate_recipient_and_content check_channels
    check_channel allowed_name is_one_of recipient_value is_blank is_missing event_member
    event_channel_map channel_recipient_field get lower upper load_request
load_event-Accepted i hex token = record {
  request = load_request i hex token;
  is_request = rw (user_text (text_append (decimal i) "@gmail.com"), token_text token) refl;
  source = order;
  is_source = refl;
  word = "created";
  is_key = refl;
  one_word = refl;
}
