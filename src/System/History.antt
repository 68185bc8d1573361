-- ===== src/System/History.antt =====
-- What becomes of a stored notification while the program runs.
use high_throughput_notifica.Prelude.{ℕ, ◌≡◌, ◌∙◌, some}
use high_throughput_notifica.Exec.Keeps.{Keeps}
use high_throughput_notifica.Model.Row.{Notification}
use high_throughput_notifica.Services.{Services, World}
use high_throughput_notifica.Repository.{get_by_id}
use high_throughput_notifica.Repository.Table.{get_by_id-Ends}
use high_throughput_notifica.Handler.Rows.{on_new_event-Rows, on_retry_event-Rows}
use high_throughput_notifica.System.Retried.{kept-Carried, retry_notification-Carried}
use high_throughput_notifica.Manager.{get_notification}
use high_throughput_notifica.Manager.Rows.{create_notification-Has}
use high_throughput_notifica.Provider.{Providers}
use high_throughput_notifica.Worker.Carried.{Later-refl, Later-trans, Carried, worker_round-Carried}
use high_throughput_notifica.Manager.Listing.Page.{list_notifications-Page}
use high_throughput_notifica.System.{
  Step, Steps, posted, consumed, expired, retried, worked, read, listed, elsewhere, done, then_,
}

module _ (E : Services) (j : ℕ) (n : Notification) where
  abbrev Has : E.database.Db → Type 0
  Has d = E.database.table d j ≡ some n

  get_by_id-Has : (i : ℕ) → Keeps (λ w. Has w.db) (get_by_id {E = E} i)
  get_by_id-Has i = record { at = λ w h. (get_by_id-Ends i w).at.0 j ∙ h }

module _ (E : Services) (providers : Providers E.Outside) where
  Step-Carried : {w v : World E} → Step providers w v → Carried E w v.db
  unfolding get_notification
  Step-Carried {w} (posted clock p e) =
      rw e (kept-Carried E w _ λ j n h. (create_notification-Has E j n clock p).at w h)
  Step-Carried {w} (consumed answer loads clock message e) = rw e (
      kept-Carried E w _ λ j n h.
        (on_new_event-Rows E (Has E j n) (get_by_id-Has E j n) answer
            (create_notification-Has E j n) loads clock message).at
          w h)
  Step-Carried {w} (expired answer ms message e) = rw e (
      kept-Carried E w _
        λ j n h. (on_retry_event-Rows E (Has E j n) (get_by_id-Has E j n) answer ms message).at w h)
  Step-Carried {w} (retried ms i e) = rw e (retry_notification-Carried E ms i w)
  Step-Carried {w} (worked chance e) =
      rw e ((worker_round-Carried E w providers chance).at w (kept-Carried E w w.db (λ j n h. h)))
  Step-Carried {w} (read i e) = rw e (kept-Carried E w _ λ j n h. (get_by_id-Ends i w).at.0 j ∙ h)
  Step-Carried {w} (listed L f limit offset e) =
      rw e (kept-Carried E w _ λ j n h. (list_notifications-Page E L f limit offset w).0 j ∙ h)
  Step-Carried {w} (elsewhere e) = rw e (kept-Carried E w w.db (λ j n h. h))

-- However the operations of the program follow each other, and whatever the services and providers do:
-- a notification that is stored once stays stored, with the same identifier, key, event, channel,
-- recipient, priority and content, and with no fewer retries.
pub Steps-Carried :
    (E : Services) (providers : Providers E.Outside) (w v : World E)
    → Steps providers w v
    → Carried E w v.db
Steps-Carried E providers w v done j n here = (n, here, Later-refl n)
Steps-Carried E providers w v (then_ {u} before last) j n here =
    let (m, at_u, sooner) = Steps-Carried E providers w u before j n here in
    let (k, at_v, later) = Step-Carried E providers last j m at_u in
    (k, at_v, Later-trans n m k sooner later)
