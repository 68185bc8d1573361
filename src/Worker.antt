-- ===== src/Worker.antt =====
-- app/workers/notification_worker.py: a round of `_worker_loop`, and rounds in a row. The workers share
-- the queue; rounds of several of them that do not overlap are rounds in the order in which they run.
pub mod Rows
pub mod Carried
pub mod Pool
pub mod Tasks
pub mod Lost
pub mod Members
pub mod Waiting
pub mod Round
pub mod Drained
use high_throughput_notifica.Prelude.{ℕ, Option, none, some, List, [], ◌∷◌}
use high_throughput_notifica.Exec.{Exec, pure, ◌>>=◌, ◌>>◌, try_except}
use high_throughput_notifica.Services.{Services, World}
use high_throughput_notifica.Queue.{dequeue}
use high_throughput_notifica.Provider.{Providers}
use high_throughput_notifica.Dispatch.{Chance, dispatch}

module _ {E : Services} (providers : Providers E.Outside) where
  unfoldable pub dispatch_next : Chance → Option ℕ → Exec (World E) Unit
  dispatch_next chance none = pure tt
  dispatch_next chance (some notification_id) = dispatch chance providers notification_id

  unfoldable pub worker_round : Chance → Exec (World E) Unit
  worker_round chance =
      try_except (do notification_id ← dequeue; dispatch_next chance notification_id) (λ e. pure tt)

  -- The rounds until `stop`, each with what it reads from outside.
  unfoldable pub worker_loop : List Chance → Exec (World E) Unit
  worker_loop [] = pure tt
  worker_loop (chance ∷ rest) = do worker_round chance; worker_loop rest
