-- ===== src/Dispatch/Writes.antt =====
-- The writes of a dispatch on a database that answers, and the publications that follow them.
use high_throughput_notifica.Prelude.{
  ℕ, ◌+◌, ◌≡◌, refl, sym, ap, ◌∙◌, Bool, false, String, Option, some, List,
}
use high_throughput_notifica.Exec.Keeps.{Keeps, Keeps-pure, Keeps-bind}
use high_throughput_notifica.Exec.{Exec, Result, ok, pure, ◌>>=◌, ◌>>◌}
use high_throughput_notifica.Exec.Ends.{
  Ends, seq-Ends, pure-Ends, weaken-Ends, Keeps-Ends, both-Ends, try_pure-returns,
}
use high_throughput_notifica.Model.Enums.{
  NotificationStatus, queued, sent, failed, retrying, NotificationErrorCode, status_value,
  error_value,
}
use high_throughput_notifica.Model.Row.{Notification, Assignment, with_status}
use high_throughput_notifica.Services.{Services, Reliable, World}
use high_throughput_notifica.Services.Frame.{BesideBroker}
use high_throughput_notifica.Repository.{update_status}
use high_throughput_notifica.Repository.Table.{row}
use high_throughput_notifica.Repository.Total.{update_status-Wrote}
use high_throughput_notifica.Queue.{publish_retry, try_publish_retry}
use high_throughput_notifica.Queue.Frame.{publish_retry-frame}
use high_throughput_notifica.Retry.{RetryConfig}
use high_throughput_notifica.Dispatch.{
  Chance, mark_sent, mark_failed, send_to_dlq, give_up, retry_later,
}
use high_throughput_notifica.Dispatch.Frame.{send_to_dlq-frame}
use high_throughput_notifica.Dispatch.Held.{Held, fresh, marked, with_status-marked, Held-of}
use high_throughput_notifica.Dispatch.Attempt.{Outcome}
use high_throughput_notifica.Exec.Results.{ok≢err, returned≢err}

module _ (E : Services) (R : Reliable E.database) (chance : Chance) (n : Notification) where
  -- A write on the row as found or as marked, from a world whose outside is `s`.
  pub record Set (m : Notification) (s : E.Outside) (r : Result (Option Notification)) (v : World E)
      : Type 0 where
    pub returned : (o : Option Notification) × (r ≡ ok o)
    pub at_row : (t : Option ℕ) × (row v n.id ≡ some (record m { mtime = t }))
    pub outside : v.outside ≡ s

  row_of : (o : Option Notification) → Held n o → (n' : Notification) × (o ≡ some n')
  row_of o (fresh e) = (n, e)
  row_of o (marked t e) = (record n { status = status_value queued; mtime = t }, e)

  pub update_status-Set :
      (status : NotificationStatus) (kwargs : List Assignment) (v : World E)
      → Held n (row v n.id)
      → Ends
          (λ r v'. Set (with_status n status kwargs) v.outside r v')
          (update_status n.id status kwargs)
          v
  update_status-Set status kwargs v h =
      let (n', e) = row_of (row v n.id) h in
      weaken-Ends _ v (update_status-Wrote E R status kwargs n.id n' v e) λ r v' p. record {
        returned = p.returned;
        at_row = (
          p.at_row.0,
          p.at_row.1
              ∙ ap some (with_status-marked n n' status kwargs p.at_row.0 (Held-of (sym e) h)),
        );
        outside = p.outside;
      }

  abbrev Quiet : Exec (World E) Unit → Type 1
  Quiet m =
      ((P : BesideBroker E) → Keeps (λ w. P w.db w.redis w.outside) m)
      × ((x : World E) → Ends (λ r _. (b : Unit {0}) × (r ≡ ok b)) m x)

  -- What only reaches the broker and returns keeps an outcome.
  then-Outcome :
      (m : Notification) (s : E.Outside) (rest : Exec (World E) Unit) (v : World E)
      → Quiet rest
      → (t : Option ℕ) × (row v n.id ≡ some (record m { mtime = t }))
      → v.outside ≡ s
      → Ends (Outcome E n.id m s) rest v
  then-Outcome m s rest v (keeps, returns) at_row outside =
      weaken-Ends _ v
        (both-Ends _ v (returns v) (
          Keeps-Ends _ v
            (keeps λ d _ o.
              ((t : Option ℕ) × (E.database.table d n.id ≡ some (record m { mtime = t })))
              × (o ≡ s))
            (at_row, outside)))
        λ r v' p. record { returned = p.0.1; at_row = p.1.0; outside = p.1.1 }

  write_then :
      (status : NotificationStatus) (kwargs : List Assignment)
      (rest : Option Notification → Exec (World E) Unit) (v : World E)
      → ((o : Option Notification) → Quiet (rest o))
      → Held n (row v n.id)
      → Ends
          (Outcome E n.id (with_status n status kwargs) v.outside)
          (update_status n.id status kwargs >>= rest)
          v
  write_then status kwargs rest v quiet h =
      seq-Ends _ rest v (update_status-Set status kwargs v h)
        (λ e t p. absurd (returned≢err p.returned))
        (λ o t p. then-Outcome _ _ (rest o) t (quiet o) p.at_row p.outside)

  pure-Quiet : Quiet (pure tt)
  pure-Quiet = (λ P. Keeps-pure tt, λ x. pure-Ends tt x (tt, refl))

  pub mark_failed-Outcome :
      (code : NotificationErrorCode) (v : World E)
      → Held n (row v n.id)
      → Ends
          (Outcome E n.id
            (record n { status = status_value failed; error_code = some (error_value code) })
            v.outside)
          (mark_failed chance n code)
          v
  unfolding mark_failed with_status
  mark_failed-Outcome code v h = write_then failed _ _ v (λ o. pure-Quiet) h

  pub mark_sent-Outcome :
      (x : Option String) (v : World E)
      → Held n (row v n.id)
      → Ends
          (Outcome E n.id
            (record n { status = status_value sent; external_id = x; stime = some chance.now })
            v.outside)
          (mark_sent chance n x)
          v
  unfolding mark_sent with_status
  mark_sent-Outcome x v h = write_then sent _ _ v (λ o. pure-Quiet) h

  send_to_dlq-Quiet : (code : NotificationErrorCode) → Quiet (send_to_dlq chance n code)
  unfolding send_to_dlq
  send_to_dlq-Quiet code = (λ P. send_to_dlq-frame E P chance n code, λ x. try_pure-returns _ tt x)

  pub give_up-Outcome :
      (code : NotificationErrorCode) (v : World E)
      → Held n (row v n.id)
      → Ends
          (Outcome E n.id
            (record n { status = status_value failed; error_code = some (error_value code) })
            v.outside)
          (give_up chance n code)
          v
  unfolding give_up
  give_up-Outcome code v h =
      seq-Ends _ _ v (mark_failed-Outcome code v h) (λ e t p. absurd (ok≢err p.returned))
        (λ _ t p. then-Outcome _ _ _ t (send_to_dlq-Quiet code) p.at_row p.outside)

  publish_retry-returns :
      (i d : ℕ) (x : World E) → Ends (λ r _. (b : Bool) × (r ≡ ok b)) (publish_retry i d) x
  unfolding publish_retry
  publish_retry-returns i d x = try_pure-returns (try_publish_retry i d) false x

  publish-Quiet : (i d : ℕ) → Quiet (do publish_retry i d; pure tt)
  publish-Quiet i d = (
    λ P. Keeps-bind _ _ (publish_retry-frame E P i d) (λ _. Keeps-pure tt),
    λ x.
        seq-Ends _ _ x (publish_retry-returns i d x) (λ e t p. absurd (returned≢err p))
          (λ b t _. pure-Ends tt t (tt, refl)),
  )

  pub retry_later-Outcome :
      (code : NotificationErrorCode) (config : RetryConfig) (v : World E)
      → Held n (row v n.id)
      → Ends
          (Outcome E n.id
            (record n {
              status = status_value retrying;
              retry_count = n.retry_count + 1;
              error_code = some (error_value code);
            })
            v.outside)
          (retry_later chance n code config)
          v
  unfolding retry_later with_status
  retry_later-Outcome code config v h = write_then retrying _ _ v (λ o. publish-Quiet _ _) h
