-- ===== src/Model/Channels.antt =====
-- app/event_channel_map.py
use high_throughput_notifica.Prelude.{List, [], ◌∷◌}
use high_throughput_notifica.Model.Enums.{
  NotificationChannel, email, sms, push, EventType, order_created, order_cancelled,
  payment_confirmed, payment_failed, payment_otp_requested, shipment_dispatched, shipment_delivered,
  shipment_delayed,
}

-- `EVENT_CHANNEL_MAP.get(event, [])`; every event has an entry.
unfoldable pub event_channel_map : EventType → List NotificationChannel
event_channel_map order_created = email ∷ push ∷ []
event_channel_map order_cancelled = email ∷ push ∷ []
event_channel_map payment_confirmed = email ∷ push ∷ []
event_channel_map payment_failed = email ∷ sms ∷ push ∷ []
event_channel_map payment_otp_requested = sms ∷ []
event_channel_map shipment_dispatched = email ∷ push ∷ []
event_channel_map shipment_delivered = email ∷ push ∷ []
event_channel_map shipment_delayed = email ∷ sms ∷ []

pub data RecipientField : Type 0 where
  email_field phone_field device_token_field : RecipientField

-- `CHANNEL_RECIPIENT_FIELD[channel]`
unfoldable pub channel_recipient_field : NotificationChannel → RecipientField
channel_recipient_field email = email_field
channel_recipient_field sms = phone_field
channel_recipient_field push = device_token_field
