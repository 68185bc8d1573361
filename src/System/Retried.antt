-- ===== src/System/Retried.antt =====
-- What a manual retry leaves of the notifications, whatever the database does.
use high_throughput_notifica.Prelude.{
  some_eq, some≢none, ℕ, ◌≡◌, refl, sym, ◌∙◌, subst, some, arith,
}
use high_throughput_notifica.Model.Row.{Notification}
use high_throughput_notifica.Services.{Services, World}
use high_throughput_notifica.Repository.Table.{row}
use high_throughput_notifica.Manager.{retry_notification}
use high_throughput_notifica.Worker.Carried.{Later, Later-refl, Carried}
use high_throughput_notifica.System.Requeued.{
  Requeued, kept, requeued, Moved, absent, moved, retry_notification-Moved,
}

Requeued-Later : (n m : Notification) → Requeued n m → Later n m
Requeued-Later n m (kept e) = subst (Later n) (sym e) (Later-refl n)
Requeued-Later n m (requeued t e) = subst (Later n) (sym e) (record {
  id = refl;
  idempotency_key = refl;
  event_type = refl;
  channel = refl;
  recipient = refl;
  priority = refl;
  content = refl;
  retry_count = omega arith;
})

module _ (E : Services) where
  pub kept-Carried :
      (w : World E) (d : E.database.Db)
      → ((j : ℕ) (n : Notification) → row w j ≡ some n → E.database.table d j ≡ some n)
      → Carried E w d
  kept-Carried w d kept_rows j n here = (n, kept_rows j n here, Later-refl n)

  pub retry_notification-Carried :
      (ms i : ℕ) (w : World E) → Carried E w (retry_notification {E = E} ms i w).1.db
  retry_notification-Carried ms i w j n here = go ((retry_notification-Moved E ms i w).at j)
    where
      v : World E
      v = (retry_notification {E = E} ms i w).1

      go : Moved Requeued (row w j) (row v j) → (m : Notification) × (row v j ≡ some m) × Later n m
      go (absent gone still_gone) = absurd (some≢none (sym here ∙ gone))
      go (moved k m before after step) =
          (m, after, subst (λ x. Later x m) (some_eq (sym before ∙ here)) (Requeued-Later k m step))
