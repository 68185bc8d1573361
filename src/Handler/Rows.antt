-- ===== src/Handler/Rows.antt =====
-- A property of the table, over the callbacks.
use high_throughput_notifica.Prelude.{ℕ, Option, none, some}
use high_throughput_notifica.Exec.{Exec, Exception, Result}
use high_throughput_notifica.Exec.Keeps.{Keeps, keeps_rules}
use high_throughput_notifica.Decimal.{Bytes}
use high_throughput_notifica.Model.Json.{Json}
use high_throughput_notifica.Model.Row.{Notification}
use high_throughput_notifica.Services.{Services, World, on_outside}
use high_throughput_notifica.Services.Frame.{on_outside-frame}
use high_throughput_notifica.Repository.{get_by_id}
use high_throughput_notifica.Queue.{enqueue}
use high_throughput_notifica.Queue.Frame.{enqueue-frame}
use high_throughput_notifica.Request.{NotificationCreate}
use high_throughput_notifica.Manager.{create_notification}
use high_throughput_notifica.Handler.{
  Answer, Incoming, take_event, refuse, on_new_event, enqueue_found, on_retry_event,
}
use high_throughput_notifica.Handler.Verdict.{refuse-verdict}

module _ (E : Services) (Q : E.database.Db → Type 0)
    (reads : (i : ℕ) → Keeps (λ w. Q w.db) (get_by_id {E = E} i)) where
  abbrev Rows : World E → Type 0
  Rows w = Q w.db

  outside-Rows : {A : Type 0} (m : Exec E.Outside A) → Keeps Rows (on_outside {E = E} m)
  outside-Rows m = on_outside-frame E (λ d r b. Q d) m

  enqueue-Rows : (t i p : ℕ) → Keeps Rows (enqueue {E = E} t i p)
  enqueue-Rows t i p = enqueue-frame E (λ d b o. Q d) t i p

  module _ (answer : Answer → Exec E.Outside (Unit {0})) where
    refuse-Rows : (k : ℕ) (e : Exception) → Keeps Rows (refuse {E = E} answer k e)
    refuse-Rows k e = rw (refuse-verdict {E = E} answer k e) (outside-Rows _)

    pub on_new_event-Rows :
        ((clock : ℕ → ℕ) (p : NotificationCreate)
          → Keeps Rows (create_notification {E = E} clock p))
        → (loads : Bytes → Result Json) (clock : ℕ → ℕ) (message : Incoming)
        → Keeps Rows (on_new_event {E = E} answer loads clock message)
    unfolding on_new_event take_event
    on_new_event-Rows creates loads clock message =
        search (keeps_rules, creates, outside-Rows, refuse-Rows) depth 12

    enqueue_found-Rows :
        (t : ℕ) (o : Option Notification) → Keeps Rows (enqueue_found {E = E} answer t o)
    unfolding enqueue_found
    enqueue_found-Rows t none = search keeps_rules
    enqueue_found-Rows t (some m) = search (keeps_rules, enqueue-Rows) depth 9

    pub on_retry_event-Rows :
        (t : ℕ) (message : Incoming) → Keeps Rows (on_retry_event {E = E} answer t message)
    unfolding on_retry_event
    on_retry_event-Rows t message =
        search (keeps_rules, reads, enqueue_found-Rows, outside-Rows) depth 12
