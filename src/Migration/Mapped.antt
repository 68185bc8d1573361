-- ===== src/Migration/Mapped.antt =====
-- app/models/notification.py: the columns and keys of the class Notification.
use high_throughput_notifica.Prelude.{true, false, some, [], ◌∷◌, String}
use high_throughput_notifica.Model.Enums.{medium, pending, priority_value, status_value}
use high_throughput_notifica.Migration.Schema.{
  big_integer, integer, jsonb, timestamp_with_timezone, varchar, column, required, Metadata,
}

abbrev pub tablename : String
tablename = "notifications"

unfoldable pub notification_metadata : Metadata
notification_metadata = record {
  name = tablename;
  columns =
      record (required "id" big_integer) { primary_key = true; autoincrement = true }
      ∷ required "idempotency_key" (varchar 255)
      ∷ required "source_service" integer
      ∷ required "event_type" integer
      ∷ required "channel" integer
      ∷ required "recipient" (varchar 255)
      ∷ record (required "priority" integer) { default = some (priority_value medium) }
      ∷ record (required "status" integer) { default = some (status_value pending) }
      ∷ column "error_code" integer
      ∷ record (column "retry_count" integer) { default = some 0 }
      ∷ column "next_retry_time" timestamp_with_timezone
      ∷ column "external_id" (varchar 255)
      ∷ required "content" jsonb
      ∷ record (column "ctime" timestamp_with_timezone) { server_default_now = true }
      ∷ record (column "mtime" timestamp_with_timezone) { onupdate_now = true }
      ∷ column "stime" timestamp_with_timezone
      ∷ [];
  keys =
      record {
        name = "uq_notifications_idempotency_key";
        unique = true;
        columns = "idempotency_key" ∷ [];
      }
      ∷ record {
        name = "ix_notifications_worker";
        unique = false;
        columns = "status" ∷ "priority" ∷ "next_retry_time" ∷ [];
      }
      ∷ record { name = "ix_notifications_channel"; unique = false; columns = "channel" ∷ [] }
      ∷ record { name = "ix_notifications_event_type"; unique = false; columns = "event_type" ∷ [] }
      ∷ [];
}
