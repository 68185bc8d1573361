-- ===== src/Retry/Windows.antt =====
-- The windows of the retry delays.
use native.Mathlib.Nat.{pow-suc, mod-eq_of_lt}
use high_throughput_notifica.Prelude.{
  ℕ, suc, zero, ◌+◌, ◌-◌, ◌*◌, ◌%◌, ◌^◌, ◌≤◌, ◌≡◌, ap, true, false, min, arith,
}
use high_throughput_notifica.Retry.{RetryConfig, get_retry_delay, randint, otp_config, bulk_config}

-- The low end of the window of a retry, before the cap.
abbrev pub window : ℕ → ℕ → ℕ
window base k = base * 2 ^ (k - 1)

abbrev pub capped_window : RetryConfig → ℕ → ℕ
capped_window c k = min (window c.base_delay k) c.max_delay

-- The delay before a retry of an event with a configuration.
abbrev pub delay_of : (draw k : ℕ) → 1 ≤ k → RetryConfig → ℕ
delay_of draw k h c = get_retry_delay draw k h c.base_delay c.max_delay c.use_jitter

window-suc : (base k : ℕ) → 1 ≤ k → base * 2 ^ k ≡ 2 * window base k
window-suc base zero h = elim h [ ]
window-suc base (suc k) h =
    let back : suc k - 1 ≡ k = omega arith in
    omega (arith, ap (λ m. base * 2 ^ m) back, ap (λ m. base * m) (pow-suc 2 k))

randint_bounds :
    (draw low high : ℕ)
    → low ≤ high
    → (low ≤ randint draw low high) × (randint draw low high ≤ high)
unfolding randint
randint_bounds draw low high h = grind arith

randint-gap : (low high : ℕ) → low ≤ high → randint (high - low) low high ≡ high
unfolding randint
randint-gap low high h =
    let small : (high - low) % (high - low + 1) ≡ high - low = mod-eq_of_lt (omega arith) in
    omega (arith, small)

randint-zero : (low high : ℕ) → randint 0 low high ≡ low
unfolding randint
randint-zero low high =
    let nothing : 0 % (high - low + 1) ≡ 0 = mod-eq_of_lt (omega arith) in omega (arith, nothing)

-- Whatever the draw, a delay lies between the low ends of its own window and of the next one, each
-- cut off at the greatest delay.
pub get_retry_delay_bounds :
    (draw k : ℕ) (h : 1 ≤ k) (c : RetryConfig)
    → (capped_window c k ≤ delay_of draw k h c) × (delay_of draw k h c ≤ capped_window c (k + 1))
unfolding get_retry_delay
get_retry_delay_bounds draw k h c = ground (
  arith,
  window-suc c.base_delay k h,
  randint_bounds draw (min (window c.base_delay k) c.max_delay)
      (min (c.base_delay * 2 ^ k) c.max_delay),
)

-- A later retry never waits less than an earlier one of the same event, whatever the draws.
pub get_retry_delay_mono :
    (draw draw' k : ℕ) (h : 1 ≤ k) (h' : 1 ≤ k + 1) (c : RetryConfig)
    → delay_of draw k h c ≤ delay_of draw' (k + 1) h' c
get_retry_delay_mono draw draw' k h h' c =
    omega (arith, get_retry_delay_bounds draw k h c, get_retry_delay_bounds draw' (k + 1) h' c)

window_next : (c : RetryConfig) (k : ℕ) → window c.base_delay (k + 1) ≡ c.base_delay * 2 ^ k
window_next c k = let back : k + 1 - 1 ≡ k = omega arith in rw back

capped_window_mono : (c : RetryConfig) (k : ℕ) → 1 ≤ k → capped_window c k ≤ capped_window c (k + 1)
capped_window_mono c k h = omega (arith, window-suc c.base_delay k h, window_next c k)

delay_of_jitter :
    (draw k : ℕ) (h : 1 ≤ k) (c : RetryConfig)
    → c.use_jitter ≡ true
    → delay_of draw k h c ≡ randint draw (capped_window c k) (capped_window c (k + 1))
unfolding get_retry_delay
delay_of_jitter draw k h c j = rw (j, window_next c k)

-- With jitter two consecutive windows share an end: the largest draw of a retry and the smallest draw
-- of the next retry give the same delay.
pub windows_touch :
    (k : ℕ) (h : 1 ≤ k) (h' : 1 ≤ k + 1) (c : RetryConfig)
    → c.use_jitter ≡ true
    → delay_of (capped_window c (k + 1) - capped_window c k) k h c ≡ delay_of 0 (k + 1) h' c
windows_touch k h h' c j = cc (
  delay_of_jitter (capped_window c (k + 1) - capped_window c k) k h c j,
  delay_of_jitter 0 (k + 1) h' c j,
  randint-gap (capped_window c k) (capped_window c (k + 1)) (capped_window_mono c k h),
  randint-zero (capped_window c (k + 1)) (capped_window c (k + 1 + 1)),
)

data Known (c : RetryConfig) : Type 0 where
  otp : c ≡ otp_config → Known c
  bulk : c ≡ bulk_config → Known c

-- What the configuration of an event promises about its retries, by the number of the retry.
abbrev pub Promised : RetryConfig → ℕ → ℕ → Type 0
Promised c k d =
    (5 * 2 ^ (k - 1) ≤ d)
    × (d ≤ 15 * 2 ^ k)
    × (c.use_jitter ≡ false → d ≡ 5 * 2 ^ (k - 1))
    × (c.use_jitter ≡ true → 15 * 2 ^ (k - 1) ≤ d)
