-- ===== src/Handler/Verdict.antt =====
-- What becomes of a delivery.
use high_throughput_notifica.Prelude.{
  ℕ, ◌+◌, ◌*◌, ◌^◌, ◌≢◌, none, ◌≡◌, refl, sym, ap, ◌∙◌, Bool, true, false, some, leb, if◌then◌else◌,
}
use high_throughput_notifica.Exec.{Exec, Exception, key_error, json_decode_error, Result, ok}
use high_throughput_notifica.Exec.Ends.{Ends, bind-Ends, seq-Ends, lift-Ends, pure-Ends, try-Ends}
use high_throughput_notifica.Exec.Results.{ok≢err, returned≢err, ok-injective}
use high_throughput_notifica.Decimal.{Bytes, str, int, int-str}
use high_throughput_notifica.Model.Row.{Notification}
use high_throughput_notifica.Services.{Services, Reliable, World, on_redis, on_outside}
use high_throughput_notifica.Repository.Table.{row}
use high_throughput_notifica.Repository.Total.{get_by_id-Read}
use high_throughput_notifica.Queue.{queue_key, score_of, enqueue}
use high_throughput_notifica.Handler.{
  Answer, ack, drop, requeue, refuse, enqueue_found, on_retry_event,
}

-- The answer to a delivery that raised: malformed events are dropped at once, others are tried again
-- until the fourth delivery.
unfoldable pub verdict : ℕ → Exception → Answer
verdict delivery_count json_decode_error = drop
verdict delivery_count key_error = drop
verdict delivery_count e = if leb 3 delivery_count then drop else requeue

module _ {E : Services} (answer : Answer → Exec E.Outside Unit) where
  if-answer :
      (b : Bool)
      → (if b then on_outside {E = E} (answer drop) else on_outside {E = E} (answer requeue))
        ≡ on_outside {E = E} (answer (if b then drop else requeue))
  if-answer true = refl
  if-answer false = refl

  pub refuse-verdict :
      (k : ℕ) (e : Exception)
      → refuse {E = E} answer k e ≡ on_outside {E = E} (answer (verdict k e))
  unfolding refuse verdict
  refuse-verdict k json_decode_error = refl
  refuse-verdict k key_error = refl
  refuse-verdict k _ = if-answer (leb 3 k)

-- The world after an expired retry of the notification `n`: ZADD has been called, and the answer given.
record Called (E : Services) (w : World E) (i ms : ℕ) (n : Notification) (s : E.Outside)
    (r : Result (Unit {0})) (v : World E) : Type 0 where
  pub returned : r ≡ ok tt
  pub rows : (j : ℕ) → row v j ≡ row w j
  pub redis : v.redis ≡ (E.redis.zadd_nx queue_key (str i) (score_of n.priority ms) w.redis).1
  pub broker : v.broker ≡ w.broker
  pub outside : v.outside ≡ s

module _ (E : Services) (R : Reliable E.database) (answer : Answer → Exec E.Outside Unit)
    (ms : ℕ) where
  enqueue-Ends :
      (i p : ℕ) (w : World E)
      → Ends
          (λ r v.
            ((b : Bool) × (r ≡ ok b))
            × (v ≡ record w {
              redis = (E.redis.zadd_nx queue_key (str i) (score_of p ms) w.redis).1;
            }))
          (enqueue {E = E} ms i p)
          w
  unfolding enqueue on_redis
  enqueue-Ends i p w =
      try-Ends {P = λ _ v. v ≡ after} _ _ w
        (bind-Ends _ _ w (λ e _. refl) (λ _ _. pure-Ends true after refl)) (λ b v e. ((b, refl), e))
        (λ e v same. pure-Ends false v ((false, refl), same))
    where
      after : World E
      after = record w { redis = (E.redis.zadd_nx queue_key (str i) (score_of p ms) w.redis).1 }

  -- What the body of `on_retry_event` leaves.
  abbrev Body : World E → ℕ → Notification → E.Outside → Result (Unit {0}) → World E → Type 0
  Body w i n s r v = Called E w i ms n s r v

  answer-Called :
      (w v : World E) (i : ℕ) (n : Notification) (s : E.Outside)
      → answer ack w.outside ≡ (ok tt, s)
      → ((j : ℕ) → row v j ≡ row w j)
      → v.redis ≡ (E.redis.zadd_nx queue_key (str i) (score_of n.priority ms) w.redis).1
      → v.broker ≡ w.broker
      → v.outside ≡ w.outside
      → Ends (Called E w i ms n s) (on_outside {E = E} (answer ack)) v
  unfolding on_outside
  answer-Called w v i n s acks rows redis broker outside =
      let said : answer ack v.outside ≡ (ok tt, s) = ap (answer ack) outside ∙ acks in
      record {
        at = record {
          returned = ap (λ p. p.0) said;
          rows = rows;
          redis = redis;
          broker = broker;
          outside = ap (λ p. p.1) said;
        };
      }

  enqueue_found-Ends :
      (n : Notification) (w : World E)
      → Ends
          (λ r v.
            (r ≡ ok tt)
            × (v ≡ record w {
              redis = (E.redis.zadd_nx queue_key (str n.id) (score_of n.priority ms) w.redis).1;
            }))
          (enqueue_found {E = E} answer ms (some n))
          w
  unfolding enqueue_found
  enqueue_found-Ends n w =
      seq-Ends _ _ w (enqueue-Ends n.id n.priority w) (λ e v p. absurd (returned≢err p.0))
        (λ b v p. pure-Ends tt v (refl, p.1))

  on_retry_event-Ends :
      (i k : ℕ) (n : Notification) (w : World E) (s : E.Outside)
      → row w i ≡ some n
      → answer ack w.outside ≡ (ok tt, s)
      → Ends
          (Called E w i ms n s)
          (on_retry_event {E = E} answer ms (record { body = str i; delivery_count = k }))
          w
  unfolding on_retry_event
  on_retry_event-Ends i k n w s here acks =
      try-Ends {P = Called E w i ms n s} _ _ w
        (lift-Ends (int (str i)) _ w (λ e raised. absurd (ok≢err (sym raised ∙ int-str i)))
          λ id read. rw (ok-injective (sym read ∙ int-str i)) (
            seq-Ends _ _ w (get_by_id-Read E R i w) (λ e v p. absurd (ok≢err p.found))
              λ o v p.
                rw (ok-injective p.found, here)
                  (seq-Ends _ _ v (enqueue_found-Ends n v) (λ e x q. absurd (ok≢err q.0))
                    λ _ x q.
                      answer-Called w x i n s acks (λ j. ap (λ y. row y j) q.1 ∙ p.rows j)
                        (ap (λ y. y.redis) q.1 ∙ added v p.redis)
                        (ap (λ y. y.broker) q.1 ∙ p.broker) (ap (λ y. y.outside) q.1 ∙ p.outside))))
        (λ _ t p. p) (λ e t p. absurd (ok≢err p.returned))
    where
      added :
          (v : World E)
          → v.redis ≡ w.redis
          → (E.redis.zadd_nx queue_key (str n.id) (score_of n.priority ms) v.redis).1
            ≡ (E.redis.zadd_nx queue_key (str i) (score_of n.priority ms) w.redis).1
      added v same = rw (E.database.table_id i w.db n here, same) refl

-- The same world: the identifier is in the queue again, behind its priority and the time of the call,
-- and no other member has moved.
pub record Requeued (E : Services) (w : World E) (i ms : ℕ) (n : Notification) (s : E.Outside)
    (r : Result (Unit {0})) (v : World E) : Type 0 where
  pub returned : r ≡ ok tt
  pub rows : (j : ℕ) → row v j ≡ row w j
  pub queued : E.redis.score v.redis queue_key (str i) ≡ some (n.priority * 10 ^ 12 + ms)
  pub others :
      (m : Bytes)
      → str i ≢ m
      → E.redis.score v.redis queue_key m ≡ E.redis.score w.redis queue_key m
  pub broker : v.broker ≡ w.broker
  pub outside : v.outside ≡ s

-- On a database that answers, the message of an expired retry of a stored notification whose identifier
-- is not in the queue, while Redis answers ZADD: its identifier is in the queue with the score of its
-- priority and the time of the call, whatever its status is; every other member keeps its score, no row
-- changes, and the message is acknowledged.
pub on_retry_event-Requeued :
    (E : Services) (R : Reliable E.database) (answer : Answer → Exec E.Outside Unit)
    (timestamp_ms i delivery_count : ℕ) (n : Notification) (w : World E) (s : E.Outside)
    → row w i ≡ some n
    → E.redis.score w.redis queue_key (str i) ≡ none
    → (E.redis.zadd_nx queue_key (str i) (n.priority * 10 ^ 12 + timestamp_ms) w.redis).0 ≡ ok tt
    → answer ack w.outside ≡ (ok tt, s)
    → let (r, v) =
        on_retry_event {E = E} answer timestamp_ms
          (record { body = str i; delivery_count = delivery_count })
          w in
      Requeued E w i timestamp_ms n s r v
unfolding score_of
on_retry_event-Requeued E R answer ms i k n w s here absent added acks =
    let c = (on_retry_event-Ends E R answer ms i k n w s here acks).at in
    let x = n.priority * 10 ^ 12 + ms in
    record {
      returned = c.returned;
      rows = c.rows;
      queued =
          ap (λ y. E.redis.score y queue_key (str i)) c.redis
          ∙ E.redis.zadd_new queue_key (str i) x w.redis added absent;
      others = λ m apart.
          ap (λ y. E.redis.score y queue_key m) c.redis
          ∙ E.redis.zadd_other queue_key (str i) m x w.redis apart;
      broker = c.broker;
      outside = c.outside;
    }
