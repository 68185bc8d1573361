-- ===== src/Tests/Manager.antt =====
-- Runs of the manager.
use high_throughput_notifica.Prelude.{◌≡◌, refl, true, false, none, some, [], ◌∷◌}
use high_throughput_notifica.Exec.{ok, err, other, ◌>>=◌, try_except}
use high_throughput_notifica.Model.Json.{object, end, field}
use high_throughput_notifica.Text.{upper}
use high_throughput_notifica.Model.Json.{get}
use high_throughput_notifica.Model.Names.{source_member, event_member, priority_member}
use high_throughput_notifica.Model.Channels.{event_channel_map, channel_recipient_field}
use high_throughput_notifica.Repository.{create}
use high_throughput_notifica.Request.{
  NotificationCreate, recipient_value, source_service_as_int, event_type_as_int, priority_as_int,
}
use high_throughput_notifica.Manager.{
  create_notification, create_new, create_channels, create_channel, create_and_enqueue,
  skip_duplicate, insert_for, new_notification, channel_key, channel_content, retry_notification,
  redis_key,
}
use high_throughput_notifica.Manager.Once.{Blocked, create_notification-once}
use high_throughput_notifica.Manager.Dated.{create_notification-Dated}
use high_throughput_notifica.Manager.Made.{MadeFor}
use high_throughput_notifica.Manager.Queued.{AllQueued, create_notification-AllQueued}
use high_throughput_notifica.Manager.Loop.{create_notification-MadeFor}
use high_throughput_notifica.Model.Enums.{EventType}
use high_throughput_notifica.Model.Row.{Notification}
use high_throughput_notifica.Queue.{enqueue, score_of}
use high_throughput_notifica.Decimal.{str}
use high_throughput_notifica.Manager.Again.{Retried, retry_notification-Retried}
use high_throughput_notifica.Services.{World, on_redis, on_db}
use high_throughput_notifica.Samples.{memory-Reliable, store, store_adds}
use high_throughput_notifica.Samples.World.{services, otp, world}

abbrev pub request : NotificationCreate
request = record {
  idempotency_key = "payment-10";
  source_service = "payment";
  event_type = "payment_otp_requested";
  priority = "critical";
  recipient = record { email = none; phone = some "+4912345"; device_token = none };
  content = field "sms" (object end) end;
}

abbrev pub saved : Notification
saved = record {
  id = 8;
  idempotency_key = "payment-10-sms";
  source_service = 2;
  event_type = 5;
  channel = 2;
  recipient = "+4912345";
  priority = 1;
  status = 1;
  error_code = none;
  retry_count = 0;
  next_retry_time = none;
  external_id = none;
  content = object end;
  ctime = some 60;
  mtime = none;
  stime = none;
}

abbrev pub start : World (services false true)
start = world false true (otp 5 1 ∷ [])

after_first : World (services false true)
after_first = (create_notification {E = services false true} (λ k. 500) request start).1

-- The outage of the table lets the first request raise; the second one is a duplicate all the same.
abbrev outage_start : World (services true true)
outage_start = world true true []

abbrev after_outage : World (services true true)
after_outage = (create_notification {E = services true true} (λ k. 500) request outage_start).1

outage_run :
    (create_notification {E = services true true} (λ k. 500) request outage_start).0 ≡ err (other 0)
unfolding create_notification create_new create_channels create_channel create_and_enqueue
    skip_duplicate insert_for create new_notification channel_key channel_content redis_key
    recipient_value channel_recipient_field source_service_as_int event_type_as_int priority_as_int
    source_member event_member priority_member event_channel_map upper get ◌>>=◌ try_except on_redis
    on_db world
outage_run = refl

second_setnx : (store.setnx (redis_key "payment-10") "1" after_outage.redis).0 ≡ ok false
unfolding create_notification create_new create_channels create_channel create_and_enqueue
    skip_duplicate insert_for create new_notification channel_key channel_content redis_key
    recipient_value channel_recipient_field source_service_as_int event_type_as_int priority_as_int
    source_member event_member priority_member event_channel_map upper get ◌>>=◌ try_except on_redis
    on_db world store
second_setnx = refl

create_notification-once_example :
    let (r, v) = create_notification {E = services true true} (λ k. 900) request after_outage in
    Blocked (services true true) after_outage r v
unfolding world
create_notification-once_example =
    create_notification-once (services true true) (λ k. 500) (λ k. 900) request request outage_start
      after_outage true false refl refl refl second_setnx

retry_notification-Retried_example :
    let (r, v) = retry_notification {E = services false true} 500 7 start in
    Retried (services false true) start 7 (otp 5 1) r v
unfolding world
retry_notification-Retried_example =
    retry_notification-Retried (services false true) memory-Reliable 500 7 (otp 5 1) start refl

pub created_run :
    (create_notification {E = services false true} (λ k. 500) request start).0
    ≡ ok (saved ∷ [], false)
unfolding create_notification create_new create_channels create_channel create_and_enqueue
    skip_duplicate insert_for create new_notification channel_key channel_content redis_key
    recipient_value channel_recipient_field source_service_as_int event_type_as_int priority_as_int
    source_member event_member priority_member event_channel_map upper get ◌>>=◌ try_except on_redis
    on_db enqueue score_of str world store
created_run = refl

create_notification-MadeFor_example :
    (event : EventType) × (event_member (upper "payment_otp_requested") ≡ ok event)
    × MadeFor request
        (create_notification {E = services false true} (λ k. 500) request start).1
        (event_channel_map event)
        (saved ∷ [])
create_notification-MadeFor_example =
    create_notification-MadeFor (services false true) (λ k. 500) request start (saved ∷ [])
      created_run

create_notification-AllQueued_example :
    AllQueued
      (saved ∷ [])
      (create_notification {E = services false true} (λ k. 500) request start).1
create_notification-AllQueued_example =
    create_notification-AllQueued (services false true) store_adds (λ k. 500) request start
      (saved ∷ []) false created_run

create_notification-Dated_example :
    let s = (create_notification {E = services false true} (λ k. 500) request start).1.redis in
    (store.has s "idem:payment-10" ≡ true) × (store.expiry s "idem:payment-10" ≡ some 86400)
unfolding redis_key
create_notification-Dated_example =
    create_notification-Dated (services false true) (λ k. 500) request start (saved ∷ [])
      created_run
