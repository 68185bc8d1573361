-- ===== src/App/Ends.antt =====
-- The application with its own providers.
use high_throughput_notifica.Prelude.{ℕ, ◌+◌, ◌-◌, ◌≤◌, ◌≡◌, refl, String, Bool, true, false, some}
use high_throughput_notifica.Exec.{Exception, ok, gets}
use high_throughput_notifica.Model.Enums.{
  NotificationChannel, email, sms, push, provider_down, EventType, event_of_value, channel_of_value,
}
use high_throughput_notifica.Model.Row.{Notification}
use high_throughput_notifica.Services.{Services, Reliable, World, Database, Redis, Broker}
use high_throughput_notifica.Repository.Table.{row}
use high_throughput_notifica.Retry.{retry_config}
use high_throughput_notifica.Provider.{BaseProvider, ProviderResult}
use high_throughput_notifica.Provider.Mock.{Luck, health_check, email_send, sms_send, push_send}
use high_throughput_notifica.Provider.Mock.Contract.{
  Contract, Honest, sent, refused, mock_send-Contract,
}
use high_throughput_notifica.Dispatch.{Chance}
use high_throughput_notifica.Dispatch.Attempt.{
  Attempt, delivered, failing, Attempted, down, success, failure,
}
use high_throughput_notifica.Dispatch.Settles.{dispatches, Ended, Served, dispatches-Ended}
use high_throughput_notifica.App.{Mocks, on_email, on_sms, on_push, on_part, providers}

-- A provider whose health check reports a flag, and whose `send` keeps the contract.
attempt-of :
    {S : Type 0} (provider : BaseProvider S) (n : Notification) (s : S) (healthy : Bool)
    (r : ProviderResult)
    → provider.health_check s ≡ (ok healthy, s)
    → provider.send n.recipient n.content s ≡ (ok r, s)
    → Honest healthy r
    → (a : Attempt) × (s' : S) × Attempted provider n s a s'
attempt-of provider n s true r checked answered (sent up x succeeds is_id) =
    (delivered r.external_id, s, success s r checked answered succeeds refl)
attempt-of provider n s true r checked answered (refused code fails known) =
    (failing code, s, failure s r code checked answered fails known refl)
attempt-of provider n s false r checked answered h = (failing provider_down, s, down refl checked)

module _ (str_of : Exception → String) (luck : Luck) where
  contract :
      Contract (email_send str_of luck)
      × Contract (sms_send str_of luck)
      × Contract (push_send str_of luck)
  contract = mock_send-Contract str_of luck

  providers-Served : (channel : NotificationChannel) → Served (providers str_of luck) channel
  unfolding providers on_part on_email on_sms on_push health_check gets
  providers-Served email = (
    _,
    refl,
    λ n s.
        let (r, answered, honest) = contract.0.answers n.recipient n.content s.email_mock in
        attempt-of _ n s s.email_mock.healthy r refl (rw answered refl) honest,
  )
  providers-Served sms = (
    _,
    refl,
    λ n s.
        let (r, answered, honest) = contract.1.answers n.recipient n.content s.sms_mock in
        attempt-of _ n s s.sms_mock.healthy r refl (rw answered refl) honest,
  )
  providers-Served push = (
    _,
    refl,
    λ n s.
        let (r, answered, honest) = contract.2.answers n.recipient n.content s.push_mock in
        attempt-of _ n s s.push_mock.healthy r refl (rw answered refl) honest,
  )

abbrev pub with_mocks : Database → Redis → Broker → Services
with_mocks database redis broker = record {
  database = database;
  redis = redis;
  broker = broker;
  Outside = Mocks;
}

-- With the providers of the application, whatever they draw and whether they are healthy, and on a
-- database that answers: dispatches of a notification of a known channel and event end it, after at
-- most as many as the retries that its event still allows, and one, as sent or failed.
pub app_dispatches-Ended :
    (D : Database) (R : Reliable D) (redis : Redis) (broker : Broker) (str_of : Exception → String)
    (lucks : ℕ → Luck) (chances : ℕ → Chance) (i : ℕ) (w : World (with_mocks D redis broker))
    (n : Notification) (channel : NotificationChannel) (event : EventType)
    → row {E = with_mocks D redis broker} w i ≡ some n
    → channel_of_value n.channel ≡ ok channel
    → event_of_value n.event_type ≡ ok event
    → (k : ℕ) × (k ≤ (retry_config event).max_retries - n.retry_count + 1)
      × (t : Notification) × (row {E = with_mocks D redis broker}
            (dispatches {E = with_mocks D redis broker} chances
              (λ j. providers str_of (lucks j))
              i
              k
              w)
            i
          ≡ some t)
      × Ended t
app_dispatches-Ended D R redis broker str_of lucks chances i w n channel event here is_channel
      is_event =
    dispatches-Ended (with_mocks D redis broker) R chances (λ j. providers str_of (lucks j)) i w n
      channel event (λ j. providers-Served str_of (lucks j) channel) here is_channel is_event
