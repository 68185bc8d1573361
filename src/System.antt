-- ===== src/System.antt =====
-- The running program: app/main.py puts the routes, the handler and the workers on one database, one
-- queue and one broker. What they do to the world is a sequence of steps, in any order.
pub mod Retried
pub mod Rows
pub mod Requeued
pub mod Typed
pub mod Holding
pub mod Handled
pub mod History
pub mod Limit
use high_throughput_notifica.Prelude.{ℕ, ◌≡◌}
use high_throughput_notifica.Exec.{Exec, Result}
use high_throughput_notifica.Decimal.{Bytes}
use high_throughput_notifica.Model.Json.{Json}
use high_throughput_notifica.Services.{Services, World, Listing}
use high_throughput_notifica.Request.{NotificationCreate}
use high_throughput_notifica.Manager.{create_notification, get_notification, retry_notification}
use high_throughput_notifica.Manager.Listing.{Filters, list_notifications}
use high_throughput_notifica.Handler.{Answer, Incoming, on_new_event, on_retry_event}
use high_throughput_notifica.Provider.{Providers}
use high_throughput_notifica.Dispatch.{Chance}
use high_throughput_notifica.Worker.{worker_round}

module _ {E : Services} (providers : Providers E.Outside) where
  -- One operation, whether it returns or raises; or something that leaves the table alone, as Redis,
  -- RabbitMQ and the providers do by themselves.
  pub data Step (w v : World E) : Type 0 where
    posted :
        (clock : ℕ → ℕ) (payload : NotificationCreate)
        → v ≡ (create_notification {E = E} clock payload w).1
        → Step w v
    consumed :
        (answer : Answer → Exec E.Outside Unit) (loads : Bytes → Result Json) (clock : ℕ → ℕ)
        (message : Incoming)
        → v ≡ (on_new_event {E = E} answer loads clock message w).1
        → Step w v
    expired :
        (answer : Answer → Exec E.Outside Unit) (timestamp_ms : ℕ) (message : Incoming)
        → v ≡ (on_retry_event {E = E} answer timestamp_ms message w).1
        → Step w v
    retried :
        (timestamp_ms notification_id : ℕ)
        → v ≡ (retry_notification {E = E} timestamp_ms notification_id w).1
        → Step w v
    worked : (chance : Chance) → v ≡ (worker_round providers chance w).1 → Step w v
    read : (notification_id : ℕ) → v ≡ (get_notification {E = E} notification_id w).1 → Step w v
    listed :
        (L : Listing E.database) (filters : Filters) (limit offset : ℕ)
        → v ≡ (list_notifications L filters limit offset w).1
        → Step w v
    elsewhere : v.db ≡ w.db → Step w v

  pub data Steps (w : World E) : World E → Type 0 where
    done : Steps w w
    then_ : {u v : World E} → Steps w u → Step u v → Steps w v
