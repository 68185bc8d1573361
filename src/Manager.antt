-- ===== src/Manager.antt =====
-- app/managers/notification_manager.py: the class NotificationManager.
pub mod Once
pub mod Kept
pub mod Dated
pub mod Rows
pub mod Inserts
pub mod Every
pub mod Again
pub mod Made
pub mod Loop
pub mod Grows
pub mod Queued
pub mod Listing
use Prim.Native.String.{◌++◌ as text_append}
use high_throughput_notifica.Prelude.{
  ℕ, suc, ◌+◌, map, String, Bool, true, false, not, Option, none, some, List, [], ◌∷◌, ◌++◌, ◌==◌,
  if◌then◌else◌,
}
use high_throughput_notifica.Exec.{
  Exec, Exception, ok, integrity_error, pure, raise, lift, ◌>>=◌, ◌>>◌, try_except,
}
use high_throughput_notifica.Text.{upper}
use high_throughput_notifica.Model.Json.{Json, object, end, get}
use high_throughput_notifica.Model.Enums.{
  NotificationChannel, pending, queued, sent, status_value, channel_value,
}
use high_throughput_notifica.Model.Names.{channel_name, event_member}
use high_throughput_notifica.Model.Row.{
  Notification, set_retry_count, set_error_code, set_next_retry_time,
}
use high_throughput_notifica.Model.Channels.{event_channel_map, channel_recipient_field}
use high_throughput_notifica.Services.{Services, World, on_db, on_redis}
use high_throughput_notifica.Repository.{create, get_by_id, update_status}
use high_throughput_notifica.Queue.{enqueue}
use high_throughput_notifica.Request.{
  NotificationCreate, recipient_value, source_service_as_int, event_type_as_int, priority_as_int,
}

abbrev pub idempotency_expiry : ℕ
idempotency_expiry = 86400

-- f"idem:{key}", and f"{key}-{channel}"
unfoldable pub redis_key : String → String
redis_key key = text_append "idem:" key

unfoldable pub channel_key : String → NotificationChannel → String
channel_key key channel = text_append key (text_append "-" (channel_name channel))

abbrev pub or_empty : Option Json → Json
or_empty none = object end
or_empty (some value) = value

-- `payload.content.get(channel.name.lower(), {})`
unfoldable pub channel_content : NotificationCreate → NotificationChannel → Json
channel_content p channel = or_empty (get (channel_name channel) p.content)

-- The object `Notification(…)` with the defaults of the columns that it does not give. Until it is
-- inserted it has no identifier, which stands as 0.
unfoldable pub new_notification :
    NotificationCreate → NotificationChannel → (source event priority : ℕ) → String → Notification
unfolding channel_content
new_notification p channel source event priority recipient = record {
  id = 0;
  idempotency_key = channel_key p.idempotency_key channel;
  source_service = source;
  event_type = event;
  channel = channel_value channel;
  recipient = recipient;
  priority = priority;
  status = status_value pending;
  error_code = none;
  retry_count = 0;
  next_retry_time = none;
  external_id = none;
  content = channel_content p channel;
  ctime = none;
  mtime = none;
  stime = none;
}

module _ {E : Services} where
  -- The column `recipient` is not nullable: without a text the INSERT breaks that constraint.
  unfoldable pub insert_for :
      NotificationCreate
      → NotificationChannel
      → (source event priority : ℕ) → Option String
      → Exec (World E) Notification
  insert_for p channel source event priority none = raise integrity_error
  insert_for p channel source event priority (some recipient) =
      create (new_notification p channel source event priority recipient)

  -- The `try` block of a round: the row, then its place in the queue.
  unfoldable pub create_and_enqueue :
      (timestamp_ms : ℕ)
      → NotificationCreate
      → NotificationChannel
      → (source event priority : ℕ) → List Notification
      → Exec (World E) (List Notification)
  create_and_enqueue timestamp_ms p channel source event priority created = do
    saved ←
        insert_for p channel source event priority
          (recipient_value p.recipient (channel_recipient_field channel))
    enqueue timestamp_ms saved.id saved.priority
    pure (created ++ saved ∷ [])

  -- A rollback expires the objects of the session, those created before among them: until they are
  -- refreshed, none of their attributes can be read.
  unfoldable pub expire_all : List Notification → Exec (World E) Unit
  expire_all created w = (ok tt, record w { expired = map (λ (n : Notification). n.id) created })

  -- `except IntegrityError`: any other exception goes on.
  unfoldable pub skip_duplicate : List Notification → Exception → Exec (World E) (List Notification)
  skip_duplicate created integrity_error = do
    on_db {E = E} E.database.rollback
    expire_all created
    pure created
  skip_duplicate created e = raise e

  -- A round of the loop over the channels.
  unfoldable pub create_channel :
      (timestamp_ms : ℕ)
      → NotificationCreate
      → NotificationChannel
      → List Notification
      → Exec (World E) (List Notification)
  create_channel timestamp_ms p channel created = do
    source ← lift (source_service_as_int p)
    event ← lift (event_type_as_int p)
    priority ← lift (priority_as_int p)
    try_except (create_and_enqueue timestamp_ms p channel source event priority created)
        (skip_duplicate created)

  -- `clock k` is the time in milliseconds at the k-th call of `enqueue`.
  unfoldable pub create_channels :
      (clock : ℕ → ℕ)
      → ℕ
      → NotificationCreate
      → List NotificationChannel
      → List Notification
      → Exec (World E) (List Notification)
  create_channels clock round p [] created = pure created
  create_channels clock round p (channel ∷ rest) created = do
    created' ← create_channel (clock round) p channel created
    create_channels clock (suc round) p rest created'

  unfoldable pub create_new :
      (clock : ℕ → ℕ) → NotificationCreate → Exec (World E) (List Notification × Bool)
  create_new clock p = do
    on_redis {E = E} (E.redis.expire (redis_key p.idempotency_key) idempotency_expiry)
    event ← lift (event_member (upper p.event_type))
    created ← create_channels clock 0 p (event_channel_map event) []
    pure (created, false)

  -- The notifications, and whether the request is a duplicate.
  unfoldable pub create_notification :
      (clock : ℕ → ℕ) → NotificationCreate → Exec (World E) (List Notification × Bool)
  create_notification clock p = do
    is_new ← on_redis {E = E} (E.redis.setnx (redis_key p.idempotency_key) "1")
    if not is_new then pure ([], true) else create_new clock p

  unfoldable pub get_notification : ℕ → Exec (World E) (Option Notification)
  get_notification notification_id = get_by_id notification_id

  unfoldable pub requeue :
      (timestamp_ms : ℕ) → ℕ → Notification → Exec (World E) (Option Notification × String)
  requeue timestamp_ms notification_id n = do
    updated ←
        update_status notification_id pending (
          set_retry_count (n.retry_count + 1) ∷ set_error_code none ∷ set_next_retry_time none ∷ [])
    enqueue timestamp_ms notification_id n.priority
    pure (updated, "")

  unfoldable pub retry_found :
      (timestamp_ms : ℕ) → ℕ → Option Notification → Exec (World E) (Option Notification × String)
  retry_found timestamp_ms notification_id none = pure (none, "Notification not found")
  retry_found timestamp_ms notification_id (some n) =
      if n.status == status_value sent
      then pure (none, "Cannot retry a notification with status sent")
      else if n.status == status_value queued
      then pure (none, "Notification is already queued")
      else requeue timestamp_ms notification_id n

  unfoldable pub retry_notification :
      (timestamp_ms : ℕ) → ℕ → Exec (World E) (Option Notification × String)
  retry_notification timestamp_ms notification_id = do
    found ← get_by_id notification_id
    retry_found timestamp_ms notification_id found
