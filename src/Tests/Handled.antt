-- ===== src/Tests/Handled.antt =====
-- A request on an empty queue, and two rounds of a worker.
use high_throughput_notifica.Prelude.{ℕ, ◌≡◌, refl, true, false, none, [], ◌∷◌, All, arith}
use high_throughput_notifica.Decimal.{Bytes}
use high_throughput_notifica.Services.{World}
use high_throughput_notifica.Repository.Table.{row}
use high_throughput_notifica.Queue.{queue_key}
use high_throughput_notifica.Manager.{create_notification}
use high_throughput_notifica.Worker.{worker_loop}
use high_throughput_notifica.Worker.Members.{has}
use high_throughput_notifica.System.Holding.{ids}
use high_throughput_notifica.System.Handled.{request-Handled}
use high_throughput_notifica.Worker.Waiting.{Trial}
use high_throughput_notifica.Model.Row.{Notification}
use high_throughput_notifica.Samples.{memory-Reliable, store, store_adds}
use high_throughput_notifica.Samples.World.{services, world, chance}
use high_throughput_notifica.Samples.Pops.{services-Popping}
use high_throughput_notifica.Tests.Manager.{request, start, saved, created_run}
use high_throughput_notifica.Tests.Worker.{by_one, by_one-Served}

abbrev asked : World (services false true)
asked = (create_notification {E = services false true} (λ k. 500) request start).1

abbrev served : World (services false true)
served = (worker_loop {E = services false true} by_one (chance ∷ chance ∷ []) asked).1

nothing_queued : (m : Bytes) → store.score start.redis queue_key m ≡ none
unfolding world store
nothing_queued m = refl

request-Handled_example :
    ((m : Bytes) → store.score served.redis queue_key m ≡ none)
    × All
        (λ (n : Notification).
          Trial (services false true) by_one (chance ∷ chance ∷ []) asked served n.id n)
        (saved ∷ [])
    × ((i : ℕ) → has i (ids (saved ∷ [])) ≡ false → row served i ≡ row asked i)
request-Handled_example =
    request-Handled (services false true) memory-Reliable store_adds services-Popping by_one
      (λ k. 500) request (chance ∷ chance ∷ []) start (saved ∷ []) by_one-Served nothing_queued
      created_run (omega arith)
