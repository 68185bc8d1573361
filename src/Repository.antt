-- ===== src/Repository.antt =====
-- app/repositories/notification_repository.py: the class NotificationRepository. The proofs are in
-- the modules below.
pub mod Table
pub mod Total
pub mod Listing
use high_throughput_notifica.Prelude.{ℕ, Option, none, some, List}
use high_throughput_notifica.Exec.{Exec, pure, ◌>>=◌}
use high_throughput_notifica.Model.Enums.{NotificationStatus}
use high_throughput_notifica.Model.Row.{Notification, Assignment, with_status}
use high_throughput_notifica.Services.{Services, World, new, dirty, on_db}

module _ {E : Services} where
  -- `add`, `commit`, `refresh`
  unfoldable pub create : Notification → Exec (World E) Notification
  create notification = do
    id ← on_db {E = E} (E.database.commit (new notification))
    on_db {E = E} (E.database.refresh id)

  unfoldable pub get_by_id : ℕ → Exec (World E) (Option Notification)
  get_by_id notification_id = on_db {E = E} (E.database.select notification_id)

  unfoldable pub save_status :
      NotificationStatus
      → List Assignment
      → Option Notification
      → Exec (World E) (Option Notification)
  save_status status kwargs none = pure none
  save_status status kwargs (some notification) = do
    id ← on_db {E = E} (E.database.commit (dirty (with_status notification status kwargs)))
    refreshed ← on_db {E = E} (E.database.refresh id)
    pure (some refreshed)

  unfoldable pub update_status :
      ℕ → NotificationStatus → List Assignment → Exec (World E) (Option Notification)
  update_status notification_id status kwargs = do
    found ← get_by_id notification_id
    save_status status kwargs found
