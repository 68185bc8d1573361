-- ===== src/Tests/Handler.antt =====
-- Runs of the callbacks of the RabbitMQ queues, and the contract of the mock providers.
use high_throughput_notifica.Prelude.{ℕ, ◌+◌, ◌≡◌, refl, true, false, [], ◌∷◌}
use high_throughput_notifica.Exec.{Exec, ok, err, key_error}
use high_throughput_notifica.Decimal.{str}
use high_throughput_notifica.Event.{request_of, item, present}
use high_throughput_notifica.Model.Json.{Json, object, end, field, text, get}
use high_throughput_notifica.Handler.{Answer, Incoming, on_retry_event}
use high_throughput_notifica.Handler.Verdict.{Requeued, on_retry_event-Requeued}
use high_throughput_notifica.Samples.{store, memory-Reliable}
use high_throughput_notifica.Samples.World.{services, otp, world}

-- The outside counts the deliveries that are settled.
abbrev count_answer : Answer → Exec ℕ Unit
count_answer a count = (ok tt, count + 1)

-- An event without an event type.
abbrev incomplete : Json
incomplete = object (field "idempotency_key" (text "k") (field "source_service" (text "order") end))

abbrev delivery : Incoming
delivery = record { body = []; delivery_count = 0 }

incomplete-raises : request_of incomplete ≡ err key_error
unfolding request_of item present get
incomplete-raises = refl

on_retry_event-Requeued_example :
    let (r, v) =
      on_retry_event {E = services false true} count_answer 500
        (record { body = str 7; delivery_count = 0 })
        (world false true (otp 5 1 ∷ [])) in
    Requeued (services false true) (world false true (otp 5 1 ∷ [])) 7 500 (otp 5 1) 1 r v
unfolding world store
on_retry_event-Requeued_example =
    on_retry_event-Requeued (services false true) memory-Reliable count_answer 500 7 0 (otp 5 1)
      (world false true (otp 5 1 ∷ [])) 1 refl refl refl refl
