-- ===== src/Tests/Retry.antt =====
-- The retry windows, at the retries and configurations that tests/test_retry_logic.py names.
use high_throughput_notifica.Prelude.{◌≡◌, ◌≤◌, refl, true, false, arith}
use high_throughput_notifica.Retry.{get_retry_delay, bulk_config}
use high_throughput_notifica.Retry.Windows.{delay_of, get_retry_delay_bounds, windows_touch}

first : 1 ≤ 1
first = omega arith

second : 1 ≤ 2
second = omega arith

third : 1 ≤ 3
third = omega arith

otp_third_retry : get_retry_delay 99 3 third 5 30 false ≡ 20
unfolding get_retry_delay
otp_third_retry = refl

bulk_second_retry : get_retry_delay 7 2 second 15 3600 true ≡ 37
unfolding get_retry_delay
bulk_second_retry = refl

get_retry_delay_bounds_example :
    (30 ≤ delay_of 7 2 second bulk_config) × (delay_of 7 2 second bulk_config ≤ 60)
get_retry_delay_bounds_example = get_retry_delay_bounds 7 2 second bulk_config

windows_touch_example : delay_of 15 1 first bulk_config ≡ delay_of 0 2 second bulk_config
windows_touch_example = windows_touch 1 first second bulk_config refl
