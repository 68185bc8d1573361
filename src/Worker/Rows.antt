-- ===== src/Worker/Rows.antt =====
-- A property of the table, over a round of a worker.
use high_throughput_notifica.Prelude.{ℕ, Option, none, some}
use high_throughput_notifica.Decimal.{Bytes}
use high_throughput_notifica.Exec.Keeps.{Keeps, keeps_rules, Keeps-pure, Keeps-bind, Keeps-try}
use high_throughput_notifica.Services.{Services}
use high_throughput_notifica.Services.Frame.{on_redis-frame}
use high_throughput_notifica.Queue.{dequeue, member_id}
use high_throughput_notifica.Provider.{Providers}
use high_throughput_notifica.Dispatch.{Chance, dispatch}
use high_throughput_notifica.Worker.{dispatch_next, worker_round}

module _ (E : Services) (Q : E.database.Db → Type 0) (providers : Providers E.Outside)
    (dispatches : (chance : Chance) (i : ℕ)
      → Keeps (λ w. Q w.db) (dispatch {E = E} chance providers i)) where
  member_id-Rows : (o : Option (Bytes × ℕ)) → Keeps (λ w. Q w.db) (member_id {E = E} o)
  unfolding member_id
  member_id-Rows none = search keeps_rules
  member_id-Rows (some (m, x)) = search keeps_rules

  dequeue-Rows : Keeps (λ w. Q w.db) (dequeue {E = E})
  unfolding dequeue
  dequeue-Rows =
      Keeps-try _ _ (Keeps-bind _ _ (on_redis-frame E (λ d b o. Q d) _) member_id-Rows)
        (λ e. Keeps-pure none)

  dispatch_next-Rows :
      (chance : Chance) (o : Option ℕ)
      → Keeps (λ w. Q w.db) (dispatch_next {E = E} providers chance o)
  unfolding dispatch_next
  dispatch_next-Rows chance none = Keeps-pure tt
  dispatch_next-Rows chance (some i) = dispatches chance i

  pub worker_round-Rows :
      (chance : Chance) → Keeps (λ w. Q w.db) (worker_round {E = E} providers chance)
  unfolding worker_round
  worker_round-Rows chance =
      Keeps-try _ _ (Keeps-bind _ _ dequeue-Rows (dispatch_next-Rows chance)) (λ e. Keeps-pure tt)
