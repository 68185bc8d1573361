-- ===== src/Provider.antt =====
-- app/providers/base.py: the interface of a provider, and the result of a delivery attempt.
pub mod Mock
use high_throughput_notifica.Prelude.{ℕ, String, Bool, Option}
use high_throughput_notifica.Exec.{Exec}
use high_throughput_notifica.Model.Enums.{NotificationChannel}
use high_throughput_notifica.Model.Json.{Json}

pub record ProviderResult : Type 0 where
  pub success : Bool
  pub external_id : Option String
  pub error_code : Option ℕ
  pub error_message : Option String

-- A provider over the state that it and the outside world keep. `send` and `health_check` may raise
-- in the model, although the contract of `send` says that it never does.
pub record BaseProvider (S : Type 0) : Type 0 where
  pub channel : NotificationChannel
  pub send : String → Json → Exec S ProviderResult
  pub health_check : Exec S Bool

-- `Dict[NotificationChannel, BaseProvider]`
abbrev pub Providers : Type 0 → Type 0
Providers S = NotificationChannel → Option (BaseProvider S)
