-- ===== src/Controller/Retry.antt =====
-- The answers to a manual retry, on a database that answers.
use high_throughput_notifica.Prelude.{
  ℕ, ◌≡◌, refl, Option, none, some, ◌==◌, if◌then◌else◌, Bool-cases, inl, inr, ◌+◌,
}
use high_throughput_notifica.Exec.{ok, pure, ◌>>=◌}
use high_throughput_notifica.Model.Enums.{queued, sent, status_value}
use high_throughput_notifica.Model.Json.{text}
use high_throughput_notifica.Model.Row.{Notification}
use high_throughput_notifica.Services.{Services, Reliable, World}
use high_throughput_notifica.Repository.Table.{row}
use high_throughput_notifica.Repository.Total.{get_by_id-Read}
use high_throughput_notifica.Manager.{retry_notification, retry_found}
use high_throughput_notifica.Manager.Again.{
  retry_notification-Retried, retry_result, after_retry, pending_again,
}
use high_throughput_notifica.Response.{RetryResponse}
use high_throughput_notifica.Controller.{
  Reply, answer, problem, post_retry, retry_reply, requeued_reply,
}

-- What a retry of a notification is answered with; without one it is the same code, 400.
unfoldable pub expected_reply : ℕ → Option Notification → Reply RetryResponse
expected_reply i none = problem 400 (text "Notification not found")
expected_reply i (some n) =
    if n.status == status_value sent
    then problem 400 (text "Cannot retry a notification with status sent")
    else if n.status == status_value queued
    then problem 400 (text "Notification is already queued")
    else answer 200 (record {
      id = i;
      status = "pending";
      retry_count = n.retry_count + 1;
      message = "Notification requeued successfully";
    })

reply_of :
    (E : Services) (i : ℕ) (n : Notification) (t : Option ℕ) (v : World E)
    → n.id ≡ i
    → (retry_reply {E = E} (retry_result n (some (after_retry n t))) v).0
      ≡ ok (expected_reply i (some n))
unfolding retry_reply requeued_reply expected_reply retry_result after_retry pending_again pure
reply_of E i n t v same = elim (Bool-cases (n.status == status_value sent)) [
  | inl is_sent ↦ rw is_sent refl
  | inr not_sent ↦ elim (Bool-cases (n.status == status_value queued)) [
    | inl is_queued ↦ rw (not_sent, is_queued) refl
    | inr not_queued ↦ rw (not_sent, not_queued, same) refl
  ]
]

module _ (E : Services) (R : Reliable E.database) (ms i : ℕ) (w : World E) where
  absent-reply : row w i ≡ none → (post_retry {E = E} ms i w).0 ≡ ok (expected_reply i none)
  unfolding post_retry retry_notification retry_found retry_reply expected_reply pure ◌>>=◌
  absent-reply gone = rw ((get_by_id-Read E R i w).at.found, gone) refl

  stored-reply :
      (n : Notification)
      → row w i ≡ some n
      → (post_retry {E = E} ms i w).0 ≡ ok (expected_reply i (some n))
  unfolding post_retry ◌>>=◌
  stored-reply n here =
      let done = retry_notification-Retried E R ms i n w here in
      let (t, now) = done.at_row in
      rw (done.returned, now) (reply_of E i n t _ (E.database.table_id i w.db n here))

-- POST /notifications/{id}/retry on a database that answers: the answer is `expected_reply` of what
-- is stored, for every state. It is a 400 for a missing, a sent or a queued notification, and for any
-- other one a 200 with its identifier, the status pending and one retry more than before.
pub post_retry-Reply :
    (E : Services) (R : Reliable E.database) (timestamp_ms i : ℕ) (w : World E)
    → (post_retry {E = E} timestamp_ms i w).0 ≡ ok (expected_reply i (row w i))
post_retry-Reply E R ms i w = go (row w i) refl
  where
    go :
        (o : Option Notification)
        → row w i ≡ o
        → (post_retry {E = E} ms i w).0 ≡ ok (expected_reply i o)
    go none gone = absent-reply E R ms i w gone
    go (some n) here = stored-reply E R ms i w n here
