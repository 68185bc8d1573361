-- ===== src/Worker/Pool.antt =====
-- app/workers/notification_worker.py: the class NotificationWorker, its start and its stop.
use high_throughput_notifica.Prelude.{
  ℕ, zero, suc, Bool, true, false, Option, none, some, List, [], ◌∷◌, ◌==◌, if◌then◌else◌,
}

pub record NotificationWorker : Type 0 where
  pub concurrency : ℕ
  pub running : Bool
  pub tasks : List ℕ

-- `concurrency or settings.worker_count`
unfoldable pub concurrency_of : (worker_count : ℕ) → Option ℕ → ℕ
concurrency_of worker_count none = worker_count
concurrency_of worker_count (some concurrency) =
    if concurrency == 0 then worker_count else concurrency

unfoldable pub new_worker : (worker_count : ℕ) → Option ℕ → NotificationWorker
new_worker worker_count concurrency = record {
  concurrency = concurrency_of worker_count concurrency;
  running = false;
  tasks = [];
}

-- The numbers `first`, …, `first + count - 1`.
unfoldable pub range : (first count : ℕ) → List ℕ
range first zero = []
range first (suc count) = first ∷ range (suc first) count

unfoldable pub start : NotificationWorker → NotificationWorker
start worker = record worker { running = true; tasks = range 0 worker.concurrency }

-- `stop` then waits for the rounds that are under way.
unfoldable pub stop : NotificationWorker → NotificationWorker
stop worker = record worker { running = false }
