-- ===== src/Retry.antt =====
-- The retry configuration and `get_retry_delay` of app/services/dispatch_service.py.
pub mod Windows
use high_throughput_notifica.Prelude.{
  ℕ, ◌+◌, ◌-◌, ◌*◌, ◌%◌, ◌^◌, ◌≤◌, Bool, true, false, min, if◌then◌else◌,
}
use high_throughput_notifica.Model.Enums.{
  EventType, order_created, order_cancelled, payment_confirmed, payment_failed,
  payment_otp_requested, shipment_dispatched, shipment_delivered, shipment_delayed,
}

pub record RetryConfig : Type 0 where
  pub max_retries : ℕ
  pub base_delay : ℕ
  pub max_delay : ℕ
  pub use_jitter : Bool

abbrev pub otp_config : RetryConfig
otp_config = record { max_retries = 3; base_delay = 5; max_delay = 30; use_jitter = false }

-- Seven entries of the table have these values.
abbrev pub bulk_config : RetryConfig
bulk_config = record { max_retries = 3; base_delay = 15; max_delay = 3600; use_jitter = true }

-- `RETRY_CONFIG.get(event_type, DEFAULT_RETRY_CONFIG)`; every event has an entry.
unfoldable pub retry_config : EventType → RetryConfig
retry_config payment_otp_requested = otp_config
retry_config payment_failed = bulk_config
retry_config payment_confirmed = bulk_config
retry_config order_created = bulk_config
retry_config order_cancelled = bulk_config
retry_config shipment_dispatched = bulk_config
retry_config shipment_delivered = bulk_config
retry_config shipment_delayed = bulk_config

-- `random.randint(low, high)` for low ≤ high: any number of the closed range, chosen by a draw.
unfoldable pub randint : ℕ → ℕ → ℕ → ℕ
randint draw low high = low + draw % (high - low + 1)

-- The one caller counts retries from 1; Python's result at 0 would be no integer.
unfoldable pub get_retry_delay : (draw retry_count : ℕ) → 1 ≤ retry_count → ℕ → ℕ → Bool → ℕ
unfolding randint
get_retry_delay draw retry_count counted base_delay max_delay use_jitter =
    let low = min (base_delay * 2 ^ (retry_count - 1)) max_delay in
    let high = min (base_delay * 2 ^ retry_count) max_delay in
    if use_jitter then randint draw low high else low
