-- ===== src/Controller/Refused.antt =====
-- Requests that are refused.
use high_throughput_notifica.Prelude.{[], ℕ, ◌≡◌, refl, sym, String, Bool, true}
use high_throughput_notifica.Exec.{Result, ok}
use high_throughput_notifica.Exec.Ends.{Ends, bind-Ends, seq-Ends, pure-Ends}
use high_throughput_notifica.Exec.Results.{ok≢err, ok-injective}
use high_throughput_notifica.Decimal.{Bytes}
use high_throughput_notifica.Model.Json.{text, object, field, end}
use high_throughput_notifica.Services.{Services, World}
use high_throughput_notifica.Request.{NotificationCreate}
use high_throughput_notifica.Manager.{redis_key}
use high_throughput_notifica.Manager.Once.{create_notification-Blocked}
use high_throughput_notifica.Response.{NotificationCreatedResponse}
use high_throughput_notifica.Controller.{
  Reply, problem, open_session, duplicate_detail, post_notification, created_reply,
}

-- The answer to a duplicate, and a world in which only the expiry of keys may have changed.
pub record Conflict (E : Services) (key : String) (w : World E)
    (r : Result (Reply NotificationCreatedResponse)) (v : World E) : Type 0 where
  pub reply :
      r
      ≡ ok (
          problem 409 (
            object (
              field "message"
                (text "duplicate request, notification already exists")
                (field "idempotency_key" (text key) end))))
  pub db : v.db ≡ w.db
  pub broker : v.broker ≡ w.broker
  pub outside : v.outside ≡ w.outside
  pub queue : (q : String) (m : Bytes) → E.redis.score v.redis q m ≡ E.redis.score w.redis q m

post_notification-Ends :
    (E : Services) (clock : ℕ → ℕ) (p : NotificationCreate) (w : World E) (b : Bool)
    → E.redis.has w.redis (redis_key p.idempotency_key) ≡ true
    → (E.redis.setnx (redis_key p.idempotency_key) "1" w.redis).0 ≡ ok b
    → Ends (Conflict E p.idempotency_key w) (post_notification {E = E} clock p) w
unfolding post_notification open_session created_reply duplicate_detail
post_notification-Ends E clock p w b has done =
    bind-Ends _ _ w (λ e raised. absurd (ok≢err (sym raised)))
      λ _ _.
        seq-Ends _ _ _
          (create_notification-Blocked E clock p (record w { expired = [] }) b has done)
          (λ e t q. absurd (ok≢err q.returned))
          λ result t q. rw (ok-injective q.returned) (
            pure-Ends _ t (record {
              reply = refl;
              db = q.db;
              broker = q.broker;
              outside = q.outside;
              queue = q.queue;
            }))

-- POST /notifications, while Redis has the key of the request and answers: the answer is a 409 whose
-- detail is the message that the notification exists already and the key of the request; no row, and
-- nothing in the queue, changes.
pub post_notification-Conflict :
    (E : Services) (clock : ℕ → ℕ) (p : NotificationCreate) (w : World E) (b : Bool)
    → E.redis.has w.redis (redis_key p.idempotency_key) ≡ true
    → (E.redis.setnx (redis_key p.idempotency_key) "1" w.redis).0 ≡ ok b
    → let (r, v) = post_notification {E = E} clock p w in Conflict E p.idempotency_key w r v
post_notification-Conflict E clock p w b has done =
    (post_notification-Ends E clock p w b has done).at
