-- ===== src/Model/Repr.antt =====
-- app/models/notification.py: the text of a Notification in a log line. The names of the members are
-- the upper-case texts of those in Model/Names.
use Prim.Native.String.{◌++◌ as text_append}
use high_throughput_notifica.Prelude.{ℕ, String, List, [], ◌∷◌}
use high_throughput_notifica.Exec.{Result, ok}
use high_throughput_notifica.Text.{decimal, upper}
use high_throughput_notifica.Model.Enums.{
  NotificationStatus, NotificationChannel, NotificationPriority, status_of_value, channel_of_value,
  priority_of_value,
}
use high_throughput_notifica.Model.Names.{status_name, channel_name, priority_name}
use high_throughput_notifica.Model.Row.{Notification}
use high_throughput_notifica.Request.{◌>>=◌}

abbrev pub concat : List String → String
concat [] = ""
concat (s ∷ rest) = text_append s (concat rest)

unfoldable pub repr_text :
    ℕ → NotificationChannel → NotificationStatus → NotificationPriority → String
repr_text id channel status priority = concat (
    "<Notification id="
    ∷ decimal id
    ∷ " channel="
    ∷ upper (channel_name channel)
    ∷ " status="
    ∷ upper (status_name status)
    ∷ " priority="
    ∷ upper (priority_name priority)
    ∷ ">"
    ∷ [])

unfoldable pub repr : Notification → Result String
repr n = do
  channel ← channel_of_value n.channel
  status ← status_of_value n.status
  priority ← priority_of_value n.priority
  ok (repr_text n.id channel status priority)
