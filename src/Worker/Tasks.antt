-- ===== src/Worker/Tasks.antt =====
-- The tasks of a pool after its start, and the loop that each of them runs.
use high_throughput_notifica.Prelude.{
  ℕ, zero, suc, ◌+◌, ◌≤◌, ◌<◌, ◌≡◌, refl, ap, true, List, [], ◌∷◌, length, arith,
}
use high_throughput_notifica.Exec.{ok}
use high_throughput_notifica.Exec.Ends.{Ends, seq-Ends, pure-Ends}
use high_throughput_notifica.Exec.Results.{ok≢err}
use high_throughput_notifica.Services.{Services, World}
use high_throughput_notifica.Provider.{Providers}
use high_throughput_notifica.Dispatch.{Chance}
use high_throughput_notifica.Worker.{worker_loop}
use high_throughput_notifica.Worker.Carried.{worker_round-returns}
use high_throughput_notifica.Worker.Members.{has}
use high_throughput_notifica.Worker.Pool.{NotificationWorker, range, start}

-- The pool runs, with one task for each number below `concurrency` and no other task.
pub record Whole (concurrency : ℕ) (worker : NotificationWorker) : Type 0 where
  pub running : worker.running ≡ true
  pub count : length worker.tasks ≡ concurrency
  pub tasks : (i : ℕ) → i < concurrency → has i worker.tasks ≡ true

length-range : (first count : ℕ) → length (range first count) ≡ count
unfolding range
length-range first zero = refl
length-range first (suc count) = ap suc (length-range (suc first) count)

has-range : (i first count : ℕ) → first ≤ i → i < first + count → has i (range first count) ≡ true
unfolding has range
has-range i first zero low high = absurd (omega arith)
has-range i first (suc count) low high = ground (arith, has-range i (suc first) count)

pub start-Whole : (worker : NotificationWorker) → Whole worker.concurrency (start worker)
unfolding start
start-Whole worker = record {
  running = refl;
  count = length-range 0 worker.concurrency;
  tasks = λ i below. has-range i 0 worker.concurrency (omega arith) (omega (arith, below));
}

-- The loop of a worker catches every exception.
pub worker_loop-returns :
    (E : Services) (providers : Providers E.Outside) (chances : List Chance) (w : World E)
    → Ends (λ r v. r ≡ ok tt) (worker_loop providers chances) w
unfolding worker_loop
worker_loop-returns E providers [] w = pure-Ends tt w refl
worker_loop-returns E providers (chance ∷ rest) w =
    seq-Ends _ _ w (worker_round-returns E providers chance w) (λ e v p. absurd (ok≢err p.1))
      λ b v p. worker_loop-returns E providers rest v
