-- ===== src/Tests/Publisher.antt =====
-- Runs of the publisher script.
use high_throughput_notifica.Prelude.{◌≡◌, refl, true, [], ◌++◌}
use high_throughput_notifica.Exec.{ok, ◌>>=◌, try_finally}
use high_throughput_notifica.Event.{item, present}
use high_throughput_notifica.Model.Json.{get}
use high_throughput_notifica.Publisher.Events.{
  sample_events, load_event, order_created_sample, payment_confirmed_sample, payment_failed_sample,
  payment_otp_requested_sample, shipment_dispatched_sample,
}
use high_throughput_notifica.Publisher.{
  Draws, publish_event, publish_samples, sample_session, run_sample_events, publish_load, rate_of,
  load_session, run_load_test,
}
use high_throughput_notifica.Publisher.Accepted.{Accepted, load_event-Accepted}
use high_throughput_notifica.Publisher.Sent.{
  sample_publications, load_publications, run_sample_events-Sent, run_load_test-Sent,
}
use high_throughput_notifica.Samples.{exchange}

unfoldable quiet : (exchange true).State
unfolding exchange
quiet = []

sent_run : (run_sample_events (exchange true) (sample_events (λ _. "0a1b2c3d")) quiet).0 ≡ ok tt
unfolding run_sample_events sample_session publish_samples publish_event item present get
    sample_events order_created_sample payment_confirmed_sample payment_failed_sample
    payment_otp_requested_sample shipment_dispatched_sample exchange quiet ◌>>=◌ try_finally
sent_run = refl

abbrev draws : Draws
draws = record { hex = λ _. "0a1b2c3d"; token = λ _. "77" }

load_run : (run_load_test (exchange true) draws 2 1500 quiet).0 ≡ ok tt
unfolding run_load_test load_session publish_load publish_event rate_of item present get load_event
    exchange quiet ◌>>=◌ try_finally
load_run = refl

load_event-Accepted_example : Accepted "order.created" (load_event 12 "0a1b2c3d" "77")
load_event-Accepted_example = load_event-Accepted 12 "0a1b2c3d" "77"

run_sample_events-Sent_example :
    (exchange true).published
      (run_sample_events (exchange true) (sample_events (λ _. "0a1b2c3d")) quiet).1
    ≡ (exchange true).published quiet ++ sample_publications (sample_events (λ _. "0a1b2c3d"))
run_sample_events-Sent_example =
    run_sample_events-Sent (exchange true) (sample_events (λ _. "0a1b2c3d")) quiet sent_run

run_load_test-Sent_example :
    (exchange true).published (run_load_test (exchange true) draws 2 1500 quiet).1
    ≡ (exchange true).published quiet ++ load_publications draws 0 2
run_load_test-Sent_example = run_load_test-Sent (exchange true) draws 2 1500 quiet load_run
