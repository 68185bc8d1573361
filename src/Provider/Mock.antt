-- ===== src/Provider/Mock.antt =====
-- app/providers/email_provider.py, sms_provider.py and push_provider.py: the mock providers. Their
-- state is the flag `_healthy`.
pub mod Contract
use Prim.Native.String.{◌++◌ as text_append}
use text.Mathlib.Text.{starts_with}
use high_throughput_notifica.Prelude.{String, Bool, true, false, not, none, some, if◌then◌else◌}
use high_throughput_notifica.Exec.{
  Exec, Exception, ok, timeout_error, connection_error, pure, raise, gets, ◌>>=◌, ◌>>◌, try_except,
}
use high_throughput_notifica.Model.Enums.{
  NotificationErrorCode, timeout, provider_down, invalid_recipient, invalid_token, unknown,
  error_value, email, sms, push,
}
use high_throughput_notifica.Model.Json.{Json}
use high_throughput_notifica.Provider.{ProviderResult, BaseProvider}

pub record Mock : Type 0 where
  pub healthy : Bool

-- The draws of one call: whether `random.random()` falls below 0.05 and below the failure rate, and the
-- first eight hexadecimal digits of a new UUID.
pub record Luck : Type 0 where
  pub token_expired : Bool
  pub times_out : Bool
  pub hex : String

unfoldable pub declined : NotificationErrorCode → String → ProviderResult
declined code message = record {
  success = false;
  external_id = none;
  error_code = some (error_value code);
  error_message = some message;
}

unfoldable pub accepted : String → ProviderResult
accepted external_id = record {
  success = true;
  external_id = some external_id;
  error_code = none;
  error_message = none;
}

-- `str_of` is `str` of an exception.
module _ (str_of : Exception → String) (luck : Luck) where
  -- The three `except` clauses, which the providers share.
  unfoldable pub caught : String → Exception → Exec Mock ProviderResult
  caught timeout_message timeout_error = pure (declined timeout timeout_message)
  caught timeout_message connection_error = pure (declined provider_down (str_of connection_error))
  caught timeout_message e = pure (declined unknown (str_of e))

  -- `if not self._healthy: raise ConnectionError(…)`
  unfoldable pub check_healthy : Exec Mock Unit
  check_healthy = do
    healthy ← gets (λ s. s.healthy)
    if not healthy then raise connection_error else pure tt

  unfoldable pub or_timeout : String → Exec Mock ProviderResult
  or_timeout external_prefix =
      if luck.times_out
      then raise timeout_error
      else pure (accepted (text_append external_prefix luck.hex))

  unfoldable pub email_send : String → Json → Exec Mock ProviderResult
  email_send recipient content =
      try_except (do check_healthy; or_timeout "mock-email-") (caught "Email provider timeout")

  unfoldable pub sms_send : String → Json → Exec Mock ProviderResult
  sms_send recipient content =
      try_except
        (do
          check_healthy
          if not (starts_with recipient "+")
              then pure
                  (declined invalid_recipient "Invalid phone number format — must start with +")
              else or_timeout "mock-sms-")
        (caught "SMS provider timeout")

  unfoldable pub push_send : String → Json → Exec Mock ProviderResult
  push_send recipient content =
      try_except
        (do
          check_healthy
          if luck.token_expired
              then pure (declined invalid_token "Device token is expired or invalid")
              else or_timeout "mock-push-")
        (caught "Push provider timeout")

  unfoldable pub health_check : Exec Mock Bool
  health_check = gets (λ s. s.healthy)

  unfoldable pub simulate_downtime : Exec Mock Unit
  simulate_downtime s = (ok tt, record s { healthy = false })

  unfoldable pub simulate_recovery : Exec Mock Unit
  simulate_recovery s = (ok tt, record s { healthy = true })

  abbrev pub mock_email : BaseProvider Mock
  mock_email = record { channel = email; send = email_send; health_check = health_check }

  abbrev pub mock_sms : BaseProvider Mock
  mock_sms = record { channel = sms; send = sms_send; health_check = health_check }

  abbrev pub mock_push : BaseProvider Mock
  mock_push = record { channel = push; send = push_send; health_check = health_check }
