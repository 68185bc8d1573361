-- ===== src/Manager/Listing.antt =====
-- app/managers/notification_manager.py: `list_notifications`.
pub mod Filter
pub mod Page
use high_throughput_notifica.Prelude.{ℕ, String, Option, none, some, List, str_eq, if◌then◌else◌}
use high_throughput_notifica.Exec.{Exec, Result, ok, err, lift, ◌>>=◌}
use high_throughput_notifica.Text.{upper}
use high_throughput_notifica.Model.Enums.{status_value, channel_value, source_value, event_value}
use high_throughput_notifica.Model.Names.{
  status_member, channel_member, source_member, event_member,
}
use high_throughput_notifica.Model.Row.{Notification}
use high_throughput_notifica.Services.{Services, World, Listing}
use high_throughput_notifica.Repository.Listing.{list}

-- The optional filters of a request, as names of members in any case.
pub record Filters : Type 0 where
  pub status : Option String
  pub channel : Option String
  pub source_service : Option String
  pub event_type : Option String

abbrev pub some_value {ℓ} : {M : Type ℓ} → (M → ℕ) → Result M → Result (Option ℕ)
some_value value (ok member) = ok (some (value member))
some_value value (err e) = err e

-- `Enum[text.upper()].value if text else None`
unfoldable pub value_of_filter {ℓ} :
    {M : Type ℓ} → (String → Result M) → (M → ℕ) → Option String → Result (Option ℕ)
value_of_filter member value none = ok none
value_of_filter member value (some text) =
    if str_eq text "" then ok none else some_value value (member (upper text))

module _ {E : Services} (L : Listing E.database) where
  unfoldable pub list_notifications :
      Filters → (limit offset : ℕ) → Exec (World E) (List Notification)
  list_notifications f limit offset = do
    status_int ← lift (value_of_filter status_member status_value f.status)
    channel_int ← lift (value_of_filter channel_member channel_value f.channel)
    source_int ← lift (value_of_filter source_member source_value f.source_service)
    event_int ← lift (value_of_filter event_member event_value f.event_type)
    list L status_int channel_int source_int event_int limit offset
