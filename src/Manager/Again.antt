-- ===== src/Manager/Again.antt =====
-- The manual retry of a notification, on a database that answers.
use high_throughput_notifica.Prelude.{
  ℕ, ◌+◌, ◌≡◌, refl, ap, ◌∙◌, String, Bool, false, Option, none, some, ◌==◌, if◌then◌else◌,
}
use high_throughput_notifica.Exec.{Result, ok}
use high_throughput_notifica.Exec.Ends.{
  Ends, seq-Ends, pure-Ends, if-Ends, weaken-Ends, Keeps-Ends, both-Ends, try_pure-returns,
}
use high_throughput_notifica.Exec.Results.{ok≢err, returned≢err, ok-injective}
use high_throughput_notifica.Model.Enums.{pending, queued, sent, status_value}
use high_throughput_notifica.Model.Row.{Notification, with_status}
use high_throughput_notifica.Services.{Services, Reliable, World}
use high_throughput_notifica.Repository.Table.{row}
use high_throughput_notifica.Repository.Total.{get_by_id-Read, update_status-Wrote}
use high_throughput_notifica.Queue.{enqueue}
use high_throughput_notifica.Queue.Frame.{enqueue-frame}
use high_throughput_notifica.Manager.{retry_notification, retry_found, requeue}

-- The row of a notification that is queued again, but for the time of the write.
unfoldable pub pending_again : Notification → Notification
pending_again n = record n {
  status = status_value pending;
  retry_count = n.retry_count + 1;
  error_code = none;
  next_retry_time = none;
}

-- The row that a manual retry of `n` leaves: as it was for a sent or queued notification.
unfoldable pub after_retry : Notification → (t : Option ℕ) → Notification
unfolding pending_again
after_retry n t =
    if n.status == status_value sent
    then n
    else if n.status == status_value queued
    then n
    else record (pending_again n) { mtime = t }

-- What the caller is told: nothing for a notification that is refused, and else the row as it is stored
-- now.
unfoldable pub retry_result : Notification → Option Notification → Option Notification × String
retry_result n stored =
    if n.status == status_value sent
    then (none, "Cannot retry a notification with status sent")
    else if n.status == status_value queued
    then (none, "Notification is already queued")
    else (stored, "")

pub record Retried (E : Services) (w : World E) (i : ℕ) (n : Notification)
    (r : Result (Option Notification × String)) (v : World E) : Type 0 where
  pub returned : r ≡ ok (retry_result n (row v i))
  pub at_row : (t : Option ℕ) × (row v i ≡ some (after_retry n t))
  pub broker : v.broker ≡ w.broker
  pub outside : v.outside ≡ w.outside

module _ (E : Services) (R : Reliable E.database) (ms i : ℕ) (n : Notification) where
  enqueue-returns :
      (t k p : ℕ) (x : World E) → Ends (λ r _. (b : Bool) × (r ≡ ok b)) (enqueue t k p) x
  unfolding enqueue
  enqueue-returns t k p x = try_pure-returns _ false x

  requeue-Ends :
      (v : World E)
      → row v i ≡ some n
      → Ends
          (λ r x.
            (r ≡ ok (row x i, ""))
            × ((t : Option ℕ) × (row x i ≡ some (record (pending_again n) { mtime = t })))
            × (x.broker ≡ v.broker)
            × (x.outside ≡ v.outside))
          (requeue {E = E} ms i n)
          v
  unfolding requeue pending_again with_status
  requeue-Ends v h =
      seq-Ends _ _ v (update_status-Wrote E R pending _ i n v h)
        (λ e x p. absurd (returned≢err p.returned))
        λ o x p.
          seq-Ends _ _ x
            (both-Ends _ x (enqueue-returns ms i n.priority x) (
              Keeps-Ends _ x
                (enqueue-frame E
                  (λ d b s.
                    (o ≡ E.database.table d i)
                    × ((t : Option ℕ) × (E.database.table d i
                          ≡ some (record (pending_again n) { mtime = t })))
                    × (b ≡ v.broker)
                    × (s ≡ v.outside))
                  ms i n.priority)
                (ok-injective p.result, p.at_row, p.broker, p.outside)))
            (λ e y q. absurd (returned≢err q.0))
            (λ b y q. pure-Ends _ y (ap (λ a. ok (a, "")) q.1.0, q.1.1, q.1.2, q.1.3))

  retry_found-Ends :
      (v : World E)
      → row v i ≡ some n
      → Ends
          (λ r x.
            (r ≡ ok (retry_result n (row x i)))
            × ((t : Option ℕ) × (row x i ≡ some (after_retry n t)))
            × (x.broker ≡ v.broker)
            × (x.outside ≡ v.outside))
          (retry_found {E = E} ms i (some n))
          v
  unfolding retry_found after_retry retry_result
  retry_found-Ends v h =
      if-Ends (n.status == status_value sent) _ _ v
        (λ is_sent. pure-Ends _ v (rw is_sent refl, (none, rw is_sent h), refl, refl))
        λ not_sent.
          if-Ends (n.status == status_value queued) _ _ v
            (λ is_queued.
              pure-Ends _ v
                (rw (not_sent, is_queued) refl, (none, rw (not_sent, is_queued) h), refl, refl))
            (λ not_queued. rw (not_sent, not_queued) (requeue-Ends v h))

  whole-Retried :
      (w : World E) → row w i ≡ some n → Ends (Retried E w i n) (retry_notification {E = E} ms i) w
  unfolding retry_notification
  whole-Retried w h =
      seq-Ends _ _ w (get_by_id-Read E R i w) (λ e v p. absurd (ok≢err p.found))
        λ o v p.
          rw (ok-injective p.found, h)
            (weaken-Ends _ v (retry_found-Ends v (p.rows i ∙ h)) λ r x q. record {
              returned = q.0;
              at_row = q.1;
              broker = q.2 ∙ p.broker;
              outside = q.3 ∙ p.outside;
            })

-- On a database that answers, a manual retry of a stored notification returns. It refuses a sent or
-- queued notification with a reason and leaves its row as it was; it makes any other one pending with
-- one retry more and no error, and returns the row that it stored. It reaches neither the broker nor a
-- provider.
pub retry_notification-Retried :
    (E : Services) (R : Reliable E.database) (timestamp_ms i : ℕ) (n : Notification) (w : World E)
    → row w i ≡ some n
    → let (r, v) = retry_notification {E = E} timestamp_ms i w in Retried E w i n r v
retry_notification-Retried E R ms i n w h = (whole-Retried E R ms i n w h).at
