-- ===== src/Provider/Mock/Contract.antt =====
-- The contract of a provider, as the mock providers keep it.
use high_throughput_notifica.Prelude.{
  ◌≡◌, refl, String, Bool, true, false, some, Bool-cases, inl, inr,
}
use text.Mathlib.Text.{starts_with}
use high_throughput_notifica.Exec.{Exec, Exception, ok, ◌>>=◌, try_except}
use high_throughput_notifica.Model.Enums.{
  NotificationErrorCode, timeout, provider_down, rate_limited, unknown, invalid_recipient,
  invalid_token, error_of_value,
}
use high_throughput_notifica.Model.Json.{Json}
use high_throughput_notifica.Dispatch.{result_error}
use high_throughput_notifica.Provider.{ProviderResult}
use high_throughput_notifica.Provider.Mock.{
  Mock, Luck, declined, accepted, caught, check_healthy, or_timeout, email_send, sms_send,
  push_send,
}

-- A result that a dispatch can settle: a delivery of a healthy provider with its identifier, or a
-- failure with a code that the dispatch knows.
pub data Honest (healthy : Bool) (r : ProviderResult) : Type 0 where
  sent :
      healthy ≡ true → (x : String) → r.success ≡ true → r.external_id ≡ some x → Honest healthy r
  refused :
      (code : NotificationErrorCode)
      → r.success ≡ false
      → result_error r.error_code ≡ ok code
      → Honest healthy r

-- `send` never raises, leaves the provider as it is, and its result is honest.
pub record Contract (send : String → Json → Exec Mock ProviderResult) : Type 0 where
  pub answers :
      (recipient : String) (content : Json) (s : Mock)
      → (r : ProviderResult) × (send recipient content s ≡ (ok r, s)) × Honest s.healthy r

accepted-Honest : (h : Bool) (x : String) → h ≡ true → Honest h (accepted x)
unfolding accepted
accepted-Honest h x up = sent up x refl refl

declined-Honest :
    (h : Bool) (code : NotificationErrorCode) (message : String) → Honest h (declined code message)
unfolding declined result_error error_of_value
declined-Honest h timeout message = refused timeout refl refl
declined-Honest h provider_down message = refused provider_down refl refl
declined-Honest h rate_limited message = refused rate_limited refl refl
declined-Honest h invalid_recipient message = refused invalid_recipient refl refl
declined-Honest h invalid_token message = refused invalid_token refl refl
declined-Honest h unknown message = refused unknown refl refl

module _ (str_of : Exception → String) (luck : Luck) where
  email_send-Contract : Contract (email_send str_of luck)
  unfolding email_send try_except ◌>>=◌ check_healthy or_timeout caught
  email_send-Contract = record { answers = answers }
    where
      answers :
          (recipient : String) (content : Json) (s : Mock)
          → (r : ProviderResult) × (email_send str_of luck recipient content s ≡ (ok r, s))
            × Honest s.healthy r
      answers recipient content s = elim (Bool-cases s.healthy) [
        | inl up ↦ elim (Bool-cases luck.times_out) [
          | inl late ↦ rw (up, late) (_, refl, declined-Honest _ _ _)
          | inr good ↦ rw (up, good) (_, refl, accepted-Honest _ _ refl)
        ]
        | inr down ↦ rw down (_, refl, declined-Honest _ _ _)
      ]

  sms_send-Contract : Contract (sms_send str_of luck)
  unfolding sms_send try_except ◌>>=◌ check_healthy or_timeout caught
  sms_send-Contract = record { answers = answers }
    where
      answers :
          (recipient : String) (content : Json) (s : Mock)
          → (r : ProviderResult) × (sms_send str_of luck recipient content s ≡ (ok r, s))
            × Honest s.healthy r
      answers recipient content s = elim (Bool-cases s.healthy) [
        | inl up ↦ elim (Bool-cases (starts_with recipient "+")) [
          | inl plus ↦ elim (Bool-cases luck.times_out) [
            | inl late ↦ rw (up, plus, late) (_, refl, declined-Honest _ _ _)
            | inr good ↦ rw (up, plus, good) (_, refl, accepted-Honest _ _ refl)
          ]
          | inr bare ↦ rw (up, bare) (_, refl, declined-Honest _ _ _)
        ]
        | inr down ↦ rw down (_, refl, declined-Honest _ _ _)
      ]

  push_send-Contract : Contract (push_send str_of luck)
  unfolding push_send try_except ◌>>=◌ check_healthy or_timeout caught
  push_send-Contract = record { answers = answers }
    where
      answers :
          (recipient : String) (content : Json) (s : Mock)
          → (r : ProviderResult) × (push_send str_of luck recipient content s ≡ (ok r, s))
            × Honest s.healthy r
      answers recipient content s = elim (Bool-cases s.healthy) [
        | inl up ↦ elim (Bool-cases luck.token_expired) [
          | inl old ↦ rw (up, old) (_, refl, declined-Honest _ _ _)
          | inr fresh ↦ elim (Bool-cases luck.times_out) [
            | inl late ↦ rw (up, fresh, late) (_, refl, declined-Honest _ _ _)
            | inr good ↦ rw (up, fresh, good) (_, refl, accepted-Honest _ _ refl)
          ]
        ]
        | inr down ↦ rw down (_, refl, declined-Honest _ _ _)
      ]

-- The mock providers keep the contract of `send`, whatever they draw: it never raises, it leaves the
-- flag alone, a delivery comes from a healthy provider with an identifier, and a failure carries a
-- code that the dispatch knows.
pub mock_send-Contract :
    (str_of : Exception → String) (luck : Luck)
    → Contract (email_send str_of luck)
      × Contract (sms_send str_of luck)
      × Contract (push_send str_of luck)
mock_send-Contract str_of luck =
    (email_send-Contract str_of luck, sms_send-Contract str_of luck, push_send-Contract str_of luck)
