-- ===== src/Tests/Listing.antt =====
-- A listing of a table with one notification.
use high_throughput_notifica.Prelude.{ℕ, ◌≡◌, refl, true, false, none, some, List, [], ◌∷◌}
use high_throughput_notifica.Exec.{ok, ◌>>=◌}
use high_throughput_notifica.Text.{upper}
use high_throughput_notifica.Model.Row.{Notification}
use high_throughput_notifica.Services.{World, on_db, meets, meets_all}
use high_throughput_notifica.Repository.Table.{row}
use high_throughput_notifica.Repository.Listing.{list, conditions_of, where_}
use high_throughput_notifica.Manager.Listing.{Filters, list_notifications, value_of_filter}
use high_throughput_notifica.Manager.Listing.Page.{Page, list_notifications-Page}
use high_throughput_notifica.Model.Names.{status_member, channel_member}
use high_throughput_notifica.Samples.{selecting}
use high_throughput_notifica.Samples.World.{services, otp, world}

abbrev sent_by_sms : Filters
sent_by_sms = record {
  status = some "Sent";
  channel = some "sms";
  source_service = none;
  event_type = some "";
}

abbrev by_fax : Filters
by_fax = record {
  status = some "Sent";
  channel = some "fax";
  source_service = none;
  event_type = none;
}

abbrev table_of_one : World (services false true)
table_of_one = world false true (otp 3 1 ∷ [])

page_run : (list_notifications selecting sent_by_sms 20 0 table_of_one).0 ≡ ok (otp 3 1 ∷ [])
unfolding list_notifications list conditions_of where_ value_of_filter status_member channel_member
    upper selecting meets meets_all on_db world ◌>>=◌
page_run = refl

list_notifications-Page_example :
    let (r, v) = list_notifications selecting sent_by_sms 20 0 table_of_one in
    ((j : ℕ) → row {E = services false true} v j ≡ row table_of_one j)
    × ((page : List Notification)
        → r ≡ ok page
        → Page (services false true) table_of_one sent_by_sms 20 0 page)
list_notifications-Page_example =
    list_notifications-Page (services false true) selecting sent_by_sms 20 0 table_of_one
