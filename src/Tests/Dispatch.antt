-- ===== src/Tests/Dispatch.antt =====
-- Runs of a dispatch.
use high_throughput_notifica.Prelude.{
  ℕ, ◌+◌, ◌-◌, ◌≤◌, ◌≡◌, refl, Bool, true, false, List, some, [], ◌∷◌,
}
use high_throughput_notifica.Repository.Table.{row}
use high_throughput_notifica.Exec.{Result, ◌>>=◌, try_except, try_finally}
use high_throughput_notifica.Decimal.{str}
use high_throughput_notifica.Model.Enums.{
  sms, timeout, payment_otp_requested, channel_of_value, error_of_value, event_of_value,
  is_retryable,
}
use high_throughput_notifica.Model.Row.{Notification, with_status}
use high_throughput_notifica.Services.{World, publications, on_db, on_outside, on_broker}
use high_throughput_notifica.Provider.{BaseProvider}
use high_throughput_notifica.Retry.{retry_config, get_retry_delay}
use high_throughput_notifica.Queue.{
  publish_retry, try_publish_retry, get_rabbitmq_channel, try_channel, connection_is_down,
  reconnect, set_rmq, stored_channel, retry_publication,
}
use high_throughput_notifica.Repository.{get_by_id, update_status, save_status}
use high_throughput_notifica.Dispatch.{
  dispatch, dispatch_found, dispatch_to, deliver, settle, mark_sent, mark_failed, schedule_retry,
  give_up, retry_later, send_to_dlq, publish_dead_letter, dlq_publication, dlq_payload,
  result_error,
}
use high_throughput_notifica.Dispatch.Attempt.{failing, failure, after_attempt, Outcome}
use high_throughput_notifica.Dispatch.Settles.{dispatches, Ended, Answers, dispatches-Ended}
use high_throughput_notifica.Dispatch.Outcome.{dispatch-Outcome}
use high_throughput_notifica.Samples.{memory-Reliable}
use high_throughput_notifica.Samples.World.{
  services, world, otp, only_sms, provider, delivered, refused, chance,
}

-- A dispatch of notification 7 with everything open.
run :
    (broker_up : Bool)
    → BaseProvider ℕ
    → List Notification
    → Result (Unit {0}) × World (services false broker_up)
unfolding ◌>>=◌ try_except try_finally get_by_id on_db on_outside on_broker dispatch_found
    channel_of_value dispatch_to deliver update_status save_status with_status settle mark_sent
    mark_failed schedule_retry give_up retry_later send_to_dlq publish_dead_letter dlq_publication
    dlq_payload result_error error_of_value is_retryable event_of_value retry_config get_retry_delay
    publish_retry try_publish_retry get_rabbitmq_channel try_channel connection_is_down reconnect
    set_rmq stored_channel retry_publication str world dispatch
run broker_up p rows =
    dispatch {E = services false broker_up} chance (only_sms p) 7 (world false broker_up rows)

sent_row :
    row (run true (provider true delivered) (otp 1 0 ∷ [])).1 7
    ≡ some (record (otp 3 0) { external_id = some "mock-sms-1"; stime = some 100; mtime = some 60 })
unfolding run
sent_row = refl

-- A timeout on the first attempt: marked as retrying, with one message that expires in 5 seconds.
retried_row :
    row (run true (provider true (refused 1)) (otp 1 0 ∷ [])).1 7
    ≡ some (record (otp 5 1) { error_code = some 1; mtime = some 60 })
unfolding run
retried_row = refl

retried_message :
    publications (run true (provider true (refused 1)) (otp 1 0 ∷ [])).1
    ≡ retry_publication 7 5 ∷ []
unfolding run
retried_message = refl

-- An invalid recipient is not retried.
failed_row :
    row (run true (provider true (refused 4)) (otp 1 0 ∷ [])).1 7
    ≡ some (record (otp 4 0) { error_code = some 4; mtime = some 60 })
unfolding run
failed_row = refl

abbrev timed_out : BaseProvider ℕ
timed_out = provider true (refused 1)

-- Notification 7 as it was left by a send that succeeded, dispatched again: it is sent again.
dispatch-Outcome_example :
    let (r, v) =
      dispatch {E = services false true} chance
        (only_sms timed_out)
        7
        (world false true (otp 3 1 ∷ [])) in
    Outcome
      (services false true)
      7
      (after_attempt chance payment_otp_requested (otp 3 1) (failing timeout))
      1
      r
      v
unfolding world
dispatch-Outcome_example =
    dispatch-Outcome (services false true) memory-Reliable chance (only_sms timed_out) 7
      (world false true (otp 3 1 ∷ [])) (otp 3 1) sms payment_otp_requested timed_out
      (failing timeout) 1 refl (unfold channel_of_value in refl) (unfold event_of_value in refl)
      refl
      (failure 0 (refused 1) timeout refl refl refl (unfold result_error error_of_value in refl)
        refl)

timed_out-Answers : Answers timed_out
timed_out-Answers n s = (
  failing timeout,
  s + 1,
  failure s (refused 1) timeout refl refl refl (unfold result_error error_of_value in refl) refl,
)

-- It fails at the third of at most three dispatches.
dispatches-Ended_example :
    (k : ℕ) × (k ≤ (retry_config payment_otp_requested).max_retries - 1 + 1)
    × (t : Notification) × (row {E = services false true}
          (dispatches {E = services false true}
            (λ _. chance)
            (λ _. only_sms timed_out)
            7
            k
            (world false true (otp 5 1 ∷ [])))
          7
        ≡ some t)
    × Ended t
unfolding world
dispatches-Ended_example =
    dispatches-Ended (services false true) memory-Reliable (λ _. chance) (λ _. only_sms timed_out) 7
      (world false true (otp 5 1 ∷ [])) (otp 5 1) sms payment_otp_requested
      (λ _. (timed_out, refl, timed_out-Answers)) refl (unfold channel_of_value in refl)
      (unfold event_of_value in refl)
