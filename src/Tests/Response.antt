-- ===== src/Tests/Response.antt =====
-- The labels of a notification that waits for another attempt.
use high_throughput_notifica.Prelude.{◌≡◌, some}
use high_throughput_notifica.Exec.{ok}
use high_throughput_notifica.Model.Enums.{
  retrying, push, shipping, shipment_delayed, status_value, channel_value, source_value,
  event_value, status_of_value, channel_of_value, source_of_value, event_of_value,
}
use high_throughput_notifica.Model.Names.{
  status_name, channel_name, source_name, event_name, status_member, channel_member, source_member,
  event_member,
}
use high_throughput_notifica.Manager.Listing.{value_of_filter}
use high_throughput_notifica.Response.{int_to_label}
use high_throughput_notifica.Response.Labels.{int_to_label-filter}

int_to_label-filter_example :
    (value_of_filter status_member status_value (some (int_to_label status_of_value status_name 5))
      ≡ ok (some 5))
    × (value_of_filter channel_member channel_value
          (some (int_to_label channel_of_value channel_name 3))
        ≡ ok (some 3))
    × (value_of_filter source_member source_value
          (some (int_to_label source_of_value source_name 3))
        ≡ ok (some 3))
    × (value_of_filter event_member event_value (some (int_to_label event_of_value event_name 8))
        ≡ ok (some 8))
int_to_label-filter_example = int_to_label-filter retrying push shipping shipment_delayed
