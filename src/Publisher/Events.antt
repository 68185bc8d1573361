-- ===== src/Publisher/Events.antt =====
-- scripts/publisher.py: the events that it sends. `hex` is the text `uuid.uuid4().hex[:8]` of a call.
use Prim.Native.String.{◌++◌ as text_append}
use high_throughput_notifica.Prelude.{ℕ, String, List, [], ◌∷◌}
use high_throughput_notifica.Model.Json.{Fields, text, object, field, end}
use high_throughput_notifica.Text.{decimal}

-- An entry of SAMPLE_EVENTS.
pub record Sample : Type 0 where
  pub routing_key : String
  pub event : Fields

unfoldable pub order_created_sample : String → Sample
order_created_sample hex = record {
  routing_key = "order.created";
  event = field "idempotency_key" (text (text_append "order-001-order_created-" hex)) (
      field "source_service" (text "order") (
        field "event_type" (text "order_created") (
          field "priority" (text "high") (
            field "recipient"
              (object (
                field "email" (text "john@gmail.com")
                  (field "device_token" (text "fcm-token-abc123") end)))
              (field "content"
                (object (
                  field "email"
                    (object (
                      field "subject" (text "Order Confirmed!")
                        (field "body" (text "Hi John, your order #001 has been confirmed.") end)))
                    (field "push"
                      (object (
                        field "title" (text "Order Confirmed")
                          (field "body" (text "Your order #001 is confirmed.") end)))
                      end)))
                end)))));
}

unfoldable pub payment_confirmed_sample : String → Sample
payment_confirmed_sample hex = record {
  routing_key = "payment.confirmed";
  event = field "idempotency_key" (text (text_append "payment-001-payment_confirmed-" hex)) (
      field "source_service" (text "payment") (
        field "event_type" (text "payment_confirmed") (
          field "priority" (text "high") (
            field "recipient"
              (object (
                field "email" (text "john@gmail.com")
                  (field "device_token" (text "fcm-token-abc123") end)))
              (field "content"
                (object (
                  field "email"
                    (object (
                      field "subject" (text "Payment Successful")
                        (field "body" (text "Your payment of ₹1299 was successful.") end)))
                    (field "push"
                      (object (
                        field "title" (text "Payment Successful")
                          (field "body" (text "₹1299 payment confirmed.") end)))
                      end)))
                end)))));
}

unfoldable pub payment_failed_sample : String → Sample
payment_failed_sample hex = record {
  routing_key = "payment.failed";
  event = field "idempotency_key" (text (text_append "payment-002-payment_failed-" hex)) (
      field "source_service" (text "payment") (
        field "event_type" (text "payment_failed") (
          field "priority" (text "high") (
            field "recipient"
              (object (
                field "email" (text "john@gmail.com") (
                  field "phone" (text "+919876543210")
                    (field "device_token" (text "fcm-token-abc123") end))))
              (field "content"
                (object (
                  field "email"
                    (object (
                      field "subject" (text "Payment Failed")
                        (field "body" (text "Your payment of ₹1299 failed. Please retry.") end)))
                    (field "sms"
                      (object (field "body" (text "Payment of ₹1299 failed. Retry now.") end))
                      (field "push"
                        (object (
                          field "title" (text "Payment Failed")
                            (field "body" (text "Your payment failed. Tap to retry.") end)))
                        end))))
                end)))));
}

unfoldable pub payment_otp_requested_sample : String → Sample
payment_otp_requested_sample hex = record {
  routing_key = "payment.otp";
  event = field "idempotency_key" (text (text_append "payment-003-payment_otp_requested-" hex)) (
      field "source_service" (text "payment") (
        field "event_type" (text "payment_otp_requested") (
          field "priority" (text "critical") (
            field "recipient" (object (field "phone" (text "+919876543210") end)) (
              field "content"
                (object (
                  field "sms"
                    (object (
                      field "body" (text "Your OTP is 123456. Valid for 5 minutes. Do not share.")
                        end))
                    end))
                end)))));
}

unfoldable pub shipment_dispatched_sample : String → Sample
shipment_dispatched_sample hex = record {
  routing_key = "shipping.dispatched";
  event = field "idempotency_key" (text (text_append "shipping-001-shipment_dispatched-" hex)) (
      field "source_service" (text "shipping") (
        field "event_type" (text "shipment_dispatched") (
          field "priority" (text "medium") (
            field "recipient"
              (object (
                field "email" (text "john@gmail.com")
                  (field "device_token" (text "fcm-token-abc123") end)))
              (field "content"
                (object (
                  field "email"
                    (object (
                      field "subject" (text "Your order is on the way!") (
                        field "body" (text "Your order #001 has been dispatched. Track: TRK123456")
                          end)))
                    (field "push"
                      (object (
                        field "title" (text "Order Dispatched")
                          (field "body" (text "Your order is on the way!") end)))
                      end)))
                end)))));
}

-- SAMPLE_EVENTS; the `k`-th entry has the text `hex k` in its key.
unfoldable pub sample_events : (hex : ℕ → String) → List Sample
sample_events hex =
    order_created_sample (hex 0)
    ∷ payment_confirmed_sample (hex 1)
    ∷ payment_failed_sample (hex 2)
    ∷ payment_otp_requested_sample (hex 3)
    ∷ shipment_dispatched_sample (hex 4)
    ∷ []

-- The event of a round of `run_load_test`: the number of the round, and its two texts.
unfoldable pub load_event : ℕ → (hex token : String) → Fields
load_event i hex token = field "idempotency_key" (text (text_append "load-test-order-" hex)) (
    field "source_service" (text "order") (
      field "event_type" (text "order_created") (
        field "priority" (text "medium") (
          field "recipient"
            (object (
              field "email" (text (text_append "user" (text_append (decimal i) "@gmail.com")))
                (field "device_token" (text (text_append "fcm-token-" token)) end)))
            (field "content"
              (object (
                field "email"
                  (object (
                    field "subject"
                      (text (text_append "Order #" (text_append (decimal i) " Confirmed")))
                      (field "body"
                        (text (
                          text_append "Your order #"
                            (text_append (decimal i) " has been confirmed.")))
                        end)))
                  (field "push"
                    (object (
                      field "title" (text "Order Confirmed") (
                        field "body"
                          (text (text_append "Order #" (text_append (decimal i) " confirmed.")))
                          end)))
                    end)))
              end)))))
