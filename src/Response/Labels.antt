-- ===== src/Response/Labels.antt =====
-- The labels of the answers, read as filters of a listing.
use high_throughput_notifica.Prelude.{◌≡◌, refl, some}
use high_throughput_notifica.Exec.{ok}
use high_throughput_notifica.Text.{upper}
use high_throughput_notifica.Model.Enums.{
  NotificationStatus, pending, queued, sent, failed, retrying, NotificationChannel, email, sms,
  push, SourceService, order, payment, shipping, EventType, order_created, order_cancelled,
  payment_confirmed, payment_failed, payment_otp_requested, shipment_dispatched, shipment_delivered,
  shipment_delayed, status_value, channel_value, source_value, event_value, status_of_value,
  channel_of_value, source_of_value, event_of_value,
}
use high_throughput_notifica.Model.Names.{
  status_name, channel_name, source_name, event_name, status_member, channel_member, source_member,
  event_member,
}
use high_throughput_notifica.Manager.Listing.{value_of_filter}
use high_throughput_notifica.Response.{int_to_label}

status-label :
    (s : NotificationStatus)
    → value_of_filter status_member status_value
        (some (int_to_label status_of_value status_name (status_value s)))
      ≡ ok (some (status_value s))
unfolding int_to_label value_of_filter status_of_value status_member upper
status-label pending = refl
status-label queued = refl
status-label sent = refl
status-label failed = refl
status-label retrying = refl

channel-label :
    (c : NotificationChannel)
    → value_of_filter channel_member channel_value
        (some (int_to_label channel_of_value channel_name (channel_value c)))
      ≡ ok (some (channel_value c))
unfolding int_to_label value_of_filter channel_of_value channel_member upper
channel-label email = refl
channel-label sms = refl
channel-label push = refl

source-label :
    (s : SourceService)
    → value_of_filter source_member source_value
        (some (int_to_label source_of_value source_name (source_value s)))
      ≡ ok (some (source_value s))
unfolding int_to_label value_of_filter source_of_value source_member upper
source-label order = refl
source-label payment = refl
source-label shipping = refl

event-label :
    (e : EventType)
    → value_of_filter event_member event_value
        (some (int_to_label event_of_value event_name (event_value e)))
      ≡ ok (some (event_value e))
unfolding int_to_label value_of_filter event_of_value event_member upper
event-label order_created = refl
event-label order_cancelled = refl
event-label payment_confirmed = refl
event-label payment_failed = refl
event-label payment_otp_requested = refl
event-label shipment_dispatched = refl
event-label shipment_delivered = refl
event-label shipment_delayed = refl

-- The label that an answer shows for a status, a channel, a source or an event, given back as a filter
-- of a listing, selects exactly the number that the label was made of.
pub int_to_label-filter :
    (s : NotificationStatus) (c : NotificationChannel) (o : SourceService) (e : EventType)
    → (value_of_filter status_member status_value
          (some (int_to_label status_of_value status_name (status_value s)))
        ≡ ok (some (status_value s)))
      × (value_of_filter channel_member channel_value
            (some (int_to_label channel_of_value channel_name (channel_value c)))
          ≡ ok (some (channel_value c)))
      × (value_of_filter source_member source_value
            (some (int_to_label source_of_value source_name (source_value o)))
          ≡ ok (some (source_value o)))
      × (value_of_filter event_member event_value
            (some (int_to_label event_of_value event_name (event_value e)))
          ≡ ok (some (event_value e)))
int_to_label-filter s c o e = (status-label s, channel-label c, source-label o, event-label e)
