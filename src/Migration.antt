-- ===== src/Migration.antt =====
-- alembic/versions/0001_create_notifications_table.py: the migration that makes the table
-- `notifications`, and the one that takes it away.
pub mod Schema
pub mod Ddl
pub mod Mapped
pub mod Env
pub mod Views
pub mod Online
pub mod Same
use high_throughput_notifica.Prelude.{true, some, List, [], ◌∷◌}
use high_throughput_notifica.Exec.{Exec, ◌>>◌}
use high_throughput_notifica.Migration.Schema.{
  Column, big_integer, integer, jsonb, timestamp_with_timezone, varchar, column, required,
}
use high_throughput_notifica.Migration.Ddl.{Catalog}

unfoldable pub migrated_columns : List Column
migrated_columns =
    record (required "id" big_integer) { primary_key = true; autoincrement = true }
    ∷ required "idempotency_key" (varchar 255)
    ∷ required "source_service" integer
    ∷ required "event_type" integer
    ∷ required "channel" integer
    ∷ required "recipient" (varchar 255)
    ∷ record (required "priority" integer) { default = some 3 }
    ∷ record (required "status" integer) { default = some 1 }
    ∷ column "error_code" integer
    ∷ record (column "retry_count" integer) { default = some 0 }
    ∷ column "next_retry_time" timestamp_with_timezone
    ∷ column "external_id" (varchar 255)
    ∷ required "content" jsonb
    ∷ record (column "ctime" timestamp_with_timezone) { server_default_now = true }
    ∷ column "mtime" timestamp_with_timezone
    ∷ column "stime" timestamp_with_timezone
    ∷ []

module _ (C : Catalog) where
  unfoldable pub upgrade : Exec C.Db Unit
  upgrade = do
    C.create_table "notifications" migrated_columns
    C.create_unique_constraint "uq_notifications_idempotency_key" "notifications"
        ("idempotency_key" ∷ [])
    C.create_index "ix_notifications_worker" "notifications"
        ("status" ∷ "priority" ∷ "next_retry_time" ∷ [])
    C.create_index "ix_notifications_channel" "notifications" ("channel" ∷ [])
    C.create_index "ix_notifications_event_type" "notifications" ("event_type" ∷ [])

  unfoldable pub downgrade : Exec C.Db Unit
  downgrade = do
    C.drop_index "ix_notifications_event_type" "notifications"
    C.drop_index "ix_notifications_channel" "notifications"
    C.drop_index "ix_notifications_worker" "notifications"
    C.drop_constraint "uq_notifications_idempotency_key" "notifications"
    C.drop_table "notifications"
