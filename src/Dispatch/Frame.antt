-- ===== src/Dispatch/Frame.antt =====
-- Sending a dead letter reaches the broker only.
use high_throughput_notifica.Exec.Keeps.{Keeps, keeps_rules}
use high_throughput_notifica.Model.Enums.{NotificationErrorCode}
use high_throughput_notifica.Model.Row.{Notification}
use high_throughput_notifica.Services.{Services}
use high_throughput_notifica.Services.Frame.{BesideBroker, on_broker-frame}
use high_throughput_notifica.Dispatch.{Chance, publish_dead_letter, send_to_dlq}

module _ (E : Services) (P : BesideBroker E) (chance : Chance) where
  publish_dead_letter-frame :
      (n : Notification) (code : NotificationErrorCode) (c : E.broker.Connection)
      → Keeps (λ w. P w.db w.redis w.outside) (publish_dead_letter {E = E} chance n code c)
  unfolding publish_dead_letter
  publish_dead_letter-frame n code c = search (keeps_rules, on_broker-frame E P) depth 14

  pub send_to_dlq-frame :
      (n : Notification) (code : NotificationErrorCode)
      → Keeps (λ w. P w.db w.redis w.outside) (send_to_dlq {E = E} chance n code)
  unfolding send_to_dlq
  send_to_dlq-frame n code =
      search (keeps_rules, on_broker-frame E P, publish_dead_letter-frame) depth 9
