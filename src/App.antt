-- ===== src/App.antt =====
-- app/main.py: the providers of the application, and its routes /health/providers and /metrics.
pub mod Ends
pub mod Uptime
pub mod Lifespan
pub mod Shutdown
pub mod Lifetime
use high_throughput_notifica.Prelude.{ℕ, String, Bool, Option, none, some, if◌then◌else◌}
use high_throughput_notifica.Exec.{Exec, Exception, key_error, pure, raise, ◌>>=◌}
use high_throughput_notifica.Model.Enums.{email, sms, push}
use high_throughput_notifica.Provider.{BaseProvider, Providers}
use high_throughput_notifica.Provider.Mock.{Mock, Luck, mock_email, mock_sms, mock_push}
use high_throughput_notifica.Services.{Services, World}
use high_throughput_notifica.Queue.{depth}

-- The state of the three providers.
pub record Mocks : Type 0 where
  pub email_mock : Mock
  pub sms_mock : Mock
  pub push_mock : Mock

unfoldable pub on_email : {A : Type 0} → Exec Mock A → Exec Mocks A
on_email m s = let (r, t) = m s.email_mock in (r, record s { email_mock = t })

unfoldable pub on_sms : {A : Type 0} → Exec Mock A → Exec Mocks A
on_sms m s = let (r, t) = m s.sms_mock in (r, record s { sms_mock = t })

unfoldable pub on_push : {A : Type 0} → Exec Mock A → Exec Mocks A
on_push m s = let (r, t) = m s.push_mock in (r, record s { push_mock = t })

-- A provider of one part of the state.
unfoldable pub on_part :
    ((A : Type 0) → Exec Mock A → Exec Mocks A) → BaseProvider Mock → BaseProvider Mocks
on_part lift_to provider = record {
  channel = provider.channel;
  send = λ recipient content. lift_to _ (provider.send recipient content);
  health_check = lift_to _ provider.health_check;
}

-- The dictionary `providers`. The failure rates are in the draws.
unfoldable pub providers : (str_of : Exception → String) → Luck → Providers Mocks
providers str_of luck email = some (on_part (λ A. on_email) (mock_email str_of luck))
providers str_of luck sms = some (on_part (λ A. on_sms) (mock_sms str_of luck))
providers str_of luck push = some (on_part (λ A. on_push) (mock_push str_of luck))

pub record Health : Type 0 where
  pub email : String
  pub sms : String
  pub push : String

-- `providers[channel].health_check()`
unfoldable pub check : {S : Type 0} → Option (BaseProvider S) → Exec S Bool
check none = raise key_error
check (some provider) = provider.health_check

abbrev pub label : Bool → String
label healthy = if healthy then "up" else "down"

-- GET /health/providers
unfoldable pub health_providers : {S : Type 0} → Providers S → Exec S Health
health_providers providers = do
  email_up ← check (providers email)
  sms_up ← check (providers sms)
  push_up ← check (providers push)
  pure (record { email = label email_up; sms = label sms_up; push = label push_up })

-- GET /metrics, the field `queue_depth`
unfoldable pub metrics : {E : Services} → Exec (World E) ℕ
metrics {E} = depth {E = E}
