-- ===== src/Tests/Request.antt =====
-- A request with names in mixed case, and the one that the validators make of it.
use high_throughput_notifica.Prelude.{◌≡◌, refl, String, none, some}
use high_throughput_notifica.Exec.{ok, err, value_error}
use high_throughput_notifica.Text.{lower, upper}
use high_throughput_notifica.Model.Json.{object, end, field, get}
use high_throughput_notifica.Model.Names.{event_member}
use high_throughput_notifica.Model.Channels.{event_channel_map, channel_recipient_field}
use high_throughput_notifica.Request.{
  NotificationCreate, make_create, validate_recipient_and_content, check_channels, check_channel,
  allowed_name, is_one_of, recipient_value, is_blank, is_missing,
}
use high_throughput_notifica.Request.Valid.{Valid, make_create-Valid}

-- A request for a one-time password with this spelling of its names.
abbrev spelled : (source event priority : String) → NotificationCreate
spelled source event priority = record {
  idempotency_key = "payment-10";
  source_service = source;
  event_type = event;
  priority = priority;
  recipient = record { email = none; phone = some "+4912345"; device_token = none };
  content = field "sms" (object end) end;
}

make_run :
    make_create (spelled "Payment" "PAYMENT_OTP_requested" "Critical")
    ≡ ok (spelled "payment" "payment_otp_requested" "critical")
unfolding make_create validate_recipient_and_content check_channels check_channel allowed_name
    is_one_of recipient_value is_blank is_missing event_member event_channel_map
    channel_recipient_field get lower upper
make_run = refl

-- The same recipient has no device token, which a shipment needs.
refused_run : make_create (spelled "shipping" "shipment_delivered" "low") ≡ err value_error
unfolding make_create validate_recipient_and_content check_channels check_channel allowed_name
    is_one_of recipient_value is_blank is_missing event_member event_channel_map
    channel_recipient_field get lower upper
refused_run = refl

make_create-Valid_example : Valid (spelled "payment" "payment_otp_requested" "critical")
make_create-Valid_example =
    make_create-Valid (spelled "Payment" "PAYMENT_OTP_requested" "Critical")
      (spelled "payment" "payment_otp_requested" "critical") make_run
