-- ===== src/Repository/Listing.antt =====
-- app/repositories/notification_repository.py: `get_by_idempotency_key` and `list`.
use high_throughput_notifica.Prelude.{ℕ, String, Option, none, some, List, [], ◌∷◌, ◌++◌}
use high_throughput_notifica.Exec.{Exec}
use high_throughput_notifica.Model.Row.{Notification}
use high_throughput_notifica.Services.{
  Services, World, Listing, Condition, status_is, channel_is, source_is, event_is, on_db,
}

-- `if value is not None: query = query.where(…)`
unfoldable pub where_ : (ℕ → Condition) → Option ℕ → List Condition
where_ condition none = []
where_ condition (some value) = condition value ∷ []

unfoldable pub conditions_of :
    (status channel source_service event_type : Option ℕ) → List Condition
conditions_of status channel source_service event_type =
    where_ status_is status
    ++ (where_ channel_is channel
        ++ (where_ source_is source_service ++ where_ event_is event_type))

module _ {E : Services} (L : Listing E.database) where
  unfoldable pub get_by_idempotency_key : String → Exec (World E) (Option Notification)
  get_by_idempotency_key key = on_db {E = E} (L.find_key key)

  unfoldable pub list :
      (status channel source_service event_type : Option ℕ)
      → (limit offset : ℕ) → Exec (World E) (List Notification)
  list status channel source_service event_type limit offset = on_db {E = E} (
      L.query (record {
        conditions = conditions_of status channel source_service event_type;
        limit = limit;
        offset = offset;
      }))
