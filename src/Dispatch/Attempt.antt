-- ===== src/Dispatch/Attempt.antt =====
-- The attempts to deliver a notification, and the row that each makes of the row that was found.
use high_throughput_notifica.Prelude.{
  ℕ, ◌+◌, ◌≡◌, refl, Bool, true, false, ◌&&◌, String, Option, some, ltb, leb, if◌then◌else◌, arith,
}
use high_throughput_notifica.Exec.{Result, ok}
use high_throughput_notifica.Model.Enums.{
  sent, failed, retrying, NotificationErrorCode, provider_down, EventType, status_value,
  error_value, is_retryable,
}
use high_throughput_notifica.Model.Row.{Notification}
use high_throughput_notifica.Services.{Services, World}
use high_throughput_notifica.Repository.Table.{row}
use high_throughput_notifica.Retry.{retry_config}
use high_throughput_notifica.Provider.{ProviderResult, BaseProvider}
use high_throughput_notifica.Dispatch.{Chance, result_error}

-- How an attempt to deliver ended.
pub data Attempt : Type 0 where
  delivered : Option String → Attempt
  failing : NotificationErrorCode → Attempt

-- The attempt that a provider makes from a state `s` of the outside, which ends in `s'`: an
-- unhealthy provider is not asked to send.
pub data Attempted {S : Type 0} (provider : BaseProvider S) (n : Notification) (s : S) (a : Attempt)
    (s' : S) : Type 0 where
  down :
      a ≡ failing provider_down
      → provider.health_check s ≡ (ok false, s')
      → Attempted provider n s a s'
  success :
      (t : S) (result : ProviderResult)
      → provider.health_check s ≡ (ok true, t)
      → provider.send n.recipient n.content t ≡ (ok result, s')
      → result.success ≡ true
      → a ≡ delivered result.external_id
      → Attempted provider n s a s'
  failure :
      (t : S) (result : ProviderResult) (code : NotificationErrorCode)
      → provider.health_check s ≡ (ok true, t)
      → provider.send n.recipient n.content t ≡ (ok result, s')
      → result.success ≡ false
      → result_error result.error_code ≡ ok code
      → a ≡ failing code
      → Attempted provider n s a s'

-- The row that an attempt makes of `n`, but for the time of the write.
unfoldable pub after_attempt : Chance → EventType → Notification → Attempt → Notification
after_attempt chance event n (delivered external_id) = record n {
  status = status_value sent;
  external_id = external_id;
  stime = some chance.now;
}
after_attempt chance event n (failing code) =
    if is_retryable code && leb (n.retry_count + 1) (retry_config event).max_retries
    then record n {
      status = status_value retrying;
      retry_count = n.retry_count + 1;
      error_code = some (error_value code);
    }
    else record n { status = status_value failed; error_code = some (error_value code) }

module _ (chance : Chance) (event : EventType) (n : Notification)
    (code : NotificationErrorCode) where
  abbrev failed_row : Notification
  failed_row = record n { status = status_value failed; error_code = some (error_value code) }

  pub after_attempt-permanent :
      is_retryable code ≡ false → after_attempt chance event n (failing code) ≡ failed_row
  unfolding after_attempt
  after_attempt-permanent e = rw e

  over-leb : (a b : ℕ) → ltb a b ≡ true → leb b a ≡ false
  over-leb a b h = ground arith

  under-leb : (a b : ℕ) → ltb a b ≡ false → leb b a ≡ true
  under-leb a b h = ground arith

  and-false : (b : Bool) → (b && false) ≡ false
  and-false true = refl
  and-false false = refl

  pub after_attempt-full :
      ltb (retry_config event).max_retries (n.retry_count + 1) ≡ true
      → after_attempt chance event n (failing code) ≡ failed_row
  unfolding after_attempt
  after_attempt-full full = rw (over-leb _ _ full, and-false (is_retryable code))

  pub after_attempt-room :
      is_retryable code ≡ true
      → ltb (retry_config event).max_retries (n.retry_count + 1) ≡ false
      → after_attempt chance event n (failing code) ≡ record n {
        status = status_value retrying;
        retry_count = n.retry_count + 1;
        error_code = some (error_value code);
      }
  unfolding after_attempt
  after_attempt-room again room = rw (again, under-leb _ _ room)

-- The dispatch returned, left this row, and the outside in this state.
pub record Outcome (E : Services) (i : ℕ) (m : Notification) (s : E.Outside) (r : Result (Unit {0}))
    (v : World E) : Type 0 where
  pub returned : r ≡ ok tt
  pub at_row : (t : Option ℕ) × (row v i ≡ some (record m { mtime = t }))
  pub outside : v.outside ≡ s
