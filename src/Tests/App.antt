-- ===== src/Tests/App.antt =====
-- The application on the sample services, with an SMS provider that is down.
use high_throughput_notifica.Prelude.{
  ℕ, ◌+◌, ◌-◌, ◌≤◌, ◌≡◌, refl, true, false, some, none, List, [], ◌∷◌,
}
use high_throughput_notifica.Exec.{ok}
use high_throughput_notifica.Model.Enums.{
  email, sms, payment_otp_requested, channel_of_value, event_of_value,
}
use high_throughput_notifica.Model.Json.{object, end}
use high_throughput_notifica.Model.Row.{Notification}
use high_throughput_notifica.Services.{World}
use high_throughput_notifica.Repository.Table.{row}
use high_throughput_notifica.Retry.{retry_config}
use high_throughput_notifica.Provider.{ProviderResult}
use high_throughput_notifica.Provider.Mock.{Luck}
use high_throughput_notifica.Dispatch.Settles.{dispatches, Ended}
use high_throughput_notifica.App.{Mocks, providers, health_providers}
use high_throughput_notifica.App.Ends.{with_mocks, app_dispatches-Ended}
use high_throughput_notifica.App.Uptime.{
  Use, downtime, recovery, sending, asking, flag, send, set, last_word, after, Answered,
  health_providers-last_word,
}
use high_throughput_notifica.Samples.{memory, memory-Reliable, store, exchange}
use high_throughput_notifica.Samples.World.{otp, holding, idle, chance}

abbrev lucky : Luck
lucky = record { token_expired = false; times_out = false; hex = "0badcafe" }

abbrev all_up : Mocks
all_up = record {
  email_mock = record { healthy = true };
  sms_mock = record { healthy = true };
  push_mock = record { healthy = true };
}

unfoldable sms_down : World (with_mocks (memory false) store (exchange true))
unfolding memory store exchange
sms_down = record {
  db = holding (otp 5 1 ∷ []);
  redis = idle;
  broker = [];
  rmq_connection = none;
  rmq_channel = none;
  expired = [];
  outside = record all_up { sms_mock = record { healthy = false } };
}

app_dispatches-Ended_example :
    (k : ℕ) × (k ≤ (retry_config payment_otp_requested).max_retries - 1 + 1)
    × (t : Notification) × (row {E = with_mocks (memory false) store (exchange true)}
          (dispatches {E = with_mocks (memory false) store (exchange true)}
            (λ _. chance)
            (λ _. providers (λ _. "down") lucky)
            7
            k
            sms_down)
          7
        ≡ some t)
    × Ended t
unfolding sms_down memory
app_dispatches-Ended_example =
    app_dispatches-Ended (memory false) memory-Reliable store (exchange true) (λ _. "down")
      (λ _. lucky) (λ _. chance) 7 sms_down (otp 5 1) sms payment_otp_requested refl
      (unfold channel_of_value in refl) (unfold event_of_value in refl)

-- The SMS provider goes down, a message to it is declined, and the e-mail provider goes down and
-- comes back.
abbrev uses : List Use
uses =
    downtime sms
    ∷ sending sms lucky "+4912345" (object end)
    ∷ downtime email
    ∷ asking lucky
    ∷ recovery email
    ∷ []

abbrev seen : Mocks
seen = after (λ _. "down") lucky uses all_up

health_providers-last_word_example :
    (health_providers (providers (λ _. "down") lucky) seen
      ≡ (ok (record { email = "up"; sms = "down"; push = "up" }), seen))
    × (r : ProviderResult) × (send (providers (λ _. "down") lucky sms) "+4912345" (object end) seen
        ≡ (ok r, seen))
    × Answered (λ _. "down") lucky false r
unfolding last_word set flag
health_providers-last_word_example =
    health_providers-last_word (λ _. "down") lucky uses all_up lucky sms "+4912345" (object end)
