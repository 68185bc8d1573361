-- ===== src/Controller/Created.antt =====
-- The answer to a request that made notifications.
use high_throughput_notifica.Prelude.{ℕ, ◌≡◌, false, true, map, All, String, List, [], ◌∷◌, some}
use high_throughput_notifica.Exec.{Exception, Result, ok}
use high_throughput_notifica.Model.Enums.{NotificationChannel, EventType}
use high_throughput_notifica.Model.Names.{channel_name, event_member}
use high_throughput_notifica.Model.Channels.{event_channel_map}
use high_throughput_notifica.Model.Row.{Notification}
use high_throughput_notifica.Text.{upper}
use high_throughput_notifica.Services.{Services, World}
use high_throughput_notifica.Repository.Table.{row}
use high_throughput_notifica.Request.{NotificationCreate}
use high_throughput_notifica.Manager.Made.{Made}
use high_throughput_notifica.Response.{NotificationChannelStatus}
use high_throughput_notifica.Controller.{Reply, answer, problem, handled}
use high_throughput_notifica.Model.Json.{text}
use high_throughput_notifica.Worker.Members.{has}
use high_throughput_notifica.Response.{NotificationCreatedResponse}

-- The entries of an answer, for the channels of a list: at most one each, in their order, each with
-- the name of its channel, the status pending, and the identifier of a notification that is stored.
pub data ShownFor {E : Services} (p : NotificationCreate) (v : World E)
    : List NotificationChannel → List NotificationChannelStatus → Type 0 where
  none_shown : ShownFor p v [] []
  left_out :
      {c : NotificationChannel} {cs : List NotificationChannel}
      {ss : List NotificationChannelStatus}
      → ShownFor p v cs ss
      → ShownFor p v (c ∷ cs) ss
  shown :
      {c : NotificationChannel} {cs : List NotificationChannel}
      {ss : List NotificationChannelStatus} (s : NotificationChannelStatus) (n : Notification)
      → Made p c n
      → row v n.id ≡ some n
      → s.id ≡ n.id
      → s.channel ≡ channel_name c
      → s.status ≡ "pending"
      → ShownFor p v cs ss
      → ShownFor p v (c ∷ cs) (s ∷ ss)

-- The entry of a notification that was made.
status_of :
    {p : NotificationCreate} {c : NotificationChannel} {n : Notification}
    → Made p c n
    → NotificationChannelStatus
status_of {c} {n} m = record {
  id = n.id;
  channel = channel_name c;
  status = "pending";
  ctime = m.ctime;
}

-- The answer for the notifications that a request has made, and the world after it.
pub data Answered {E : Services} (str_of : Exception → String) (p : NotificationCreate)
    (created : List Notification) (r : Result (Reply NotificationCreatedResponse)) (v : World E)
    : Type 0 where
  listed :
      (event : EventType) (ss : List NotificationChannelStatus)
      → All (λ (n : Notification). has n.id v.expired ≡ false) created
      → event_member (upper p.event_type) ≡ ok event
      → r
        ≡ ok (
            answer 201 (record {
              idempotency_key = p.idempotency_key;
              event_type = p.event_type;
              notifications = ss;
            }))
      → ShownFor p v (event_channel_map event) ss
      → Answered str_of p created r v
  unread :
      (i : ℕ)
      → has i (map (λ (n : Notification). n.id) created) ≡ true
      → has i v.expired ≡ true
      → handled str_of r ≡ problem 500 (text "Internal server error")
      → Answered str_of p created r v
