-- ===== src/Dispatch/Redis.antt =====
-- A dispatch leaves the queue of the workers alone.
use high_throughput_notifica.Prelude.{ℕ, String, Option, none, some, List}
use high_throughput_notifica.Exec.{Exec}
use high_throughput_notifica.Exec.Keeps.{Keeps, keeps_rules}
use high_throughput_notifica.Model.Enums.{NotificationStatus, NotificationErrorCode}
use high_throughput_notifica.Model.Row.{Notification, Assignment}
use high_throughput_notifica.Services.{Services, World, on_db, on_outside}
use high_throughput_notifica.Services.Frame.{on_db-frame, on_outside-frame}
use high_throughput_notifica.Repository.{get_by_id, save_status, update_status}
use high_throughput_notifica.Queue.Frame.{publish_retry-frame}
use high_throughput_notifica.Queue.{publish_retry}
use high_throughput_notifica.Retry.{RetryConfig}
use high_throughput_notifica.Provider.{ProviderResult, BaseProvider, Providers}
use high_throughput_notifica.Dispatch.{
  Chance, mark_sent, mark_failed, send_to_dlq, give_up, retry_later, schedule_retry, settle,
  deliver, dispatch_to, dispatch_found, dispatch,
}
use high_throughput_notifica.Dispatch.Frame.{send_to_dlq-frame}

module _ (E : Services) (Q : E.redis.State → Type 0) where
  abbrev Kept : World E → Type 0
  Kept w = Q w.redis

  db-Kept : {A : Type 0} (m : Exec E.database.Db A) → Keeps Kept (on_db {E = E} m)
  db-Kept m = on_db-frame E (λ r b o. Q r) m

  outside-Kept : {A : Type 0} (m : Exec E.Outside A) → Keeps Kept (on_outside {E = E} m)
  outside-Kept m = on_outside-frame E (λ d r b. Q r) m

  publish_retry-Kept : (i s : ℕ) → Keeps Kept (publish_retry {E = E} i s)
  publish_retry-Kept = publish_retry-frame E (λ d r o. Q r)

  get_by_id-Kept : (i : ℕ) → Keeps Kept (get_by_id {E = E} i)
  unfolding get_by_id
  get_by_id-Kept i = db-Kept _

  save_status-Kept :
      (status : NotificationStatus) (kwargs : List Assignment) (o : Option Notification)
      → Keeps Kept (save_status {E = E} status kwargs o)
  unfolding save_status
  save_status-Kept status kwargs none = search keeps_rules
  save_status-Kept status kwargs (some n) = search (keeps_rules, db-Kept) depth 9

  update_status-Kept :
      (i : ℕ) (status : NotificationStatus) (kwargs : List Assignment)
      → Keeps Kept (update_status {E = E} i status kwargs)
  unfolding update_status
  update_status-Kept i status kwargs =
      search (keeps_rules, get_by_id-Kept, save_status-Kept) depth 9

  module _ (chance : Chance) where
    send_to_dlq-Kept :
        (n : Notification) (code : NotificationErrorCode)
        → Keeps Kept (send_to_dlq {E = E} chance n code)
    send_to_dlq-Kept = send_to_dlq-frame E (λ d r o. Q r) chance

    mark_sent-Kept :
        (n : Notification) (x : Option String) → Keeps Kept (mark_sent {E = E} chance n x)
    unfolding mark_sent
    mark_sent-Kept n x = search (keeps_rules, update_status-Kept) depth 9

    mark_failed-Kept :
        (n : Notification) (code : NotificationErrorCode)
        → Keeps Kept (mark_failed {E = E} chance n code)
    unfolding mark_failed
    mark_failed-Kept n code = search (keeps_rules, update_status-Kept) depth 9

    give_up-Kept :
        (n : Notification) (code : NotificationErrorCode)
        → Keeps Kept (give_up {E = E} chance n code)
    unfolding give_up
    give_up-Kept n code = search (keeps_rules, mark_failed-Kept, send_to_dlq-Kept) depth 9

    retry_later-Kept :
        (n : Notification) (code : NotificationErrorCode) (config : RetryConfig)
        → Keeps Kept (retry_later {E = E} chance n code config)
    unfolding retry_later
    retry_later-Kept n code config =
        search (keeps_rules, update_status-Kept, publish_retry-Kept) depth 12

    schedule_retry-Kept :
        (n : Notification) (code : NotificationErrorCode)
        → Keeps Kept (schedule_retry {E = E} chance n code)
    unfolding schedule_retry
    schedule_retry-Kept n code = search (keeps_rules, give_up-Kept, retry_later-Kept) depth 12

    settle-Kept :
        (n : Notification) (result : ProviderResult) → Keeps Kept (settle {E = E} chance n result)
    unfolding settle
    settle-Kept n result =
        search (keeps_rules, mark_sent-Kept, mark_failed-Kept, schedule_retry-Kept) depth 14

    deliver-Kept :
        (n : Notification) (provider : BaseProvider E.Outside)
        → Keeps Kept (deliver {E = E} chance n provider)
    unfolding deliver
    deliver-Kept n provider =
        search (keeps_rules, update_status-Kept, outside-Kept, schedule_retry-Kept, settle-Kept)
          depth 14

    dispatch_found-Kept :
        (providers : Providers E.Outside) (o : Option Notification)
        → Keeps Kept (dispatch_found {E = E} chance providers o)
    unfolding dispatch_found
    dispatch_found-Kept providers none = search keeps_rules
    dispatch_found-Kept providers (some n) = search (keeps_rules, dispatch_to-Kept) depth 9
      where
        dispatch_to-Kept :
            (o : Option (BaseProvider E.Outside)) → Keeps Kept (dispatch_to {E = E} chance n o)
        dispatch_to-Kept none = unfold dispatch_to in mark_failed-Kept n _
        dispatch_to-Kept (some provider) = unfold dispatch_to in deliver-Kept n provider

    pub dispatch-Kept :
        (providers : Providers E.Outside) (i : ℕ) → Keeps Kept (dispatch {E = E} chance providers i)
    unfolding dispatch
    dispatch-Kept providers i = search (keeps_rules, get_by_id-Kept, dispatch_found-Kept) depth 9
