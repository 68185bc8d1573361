-- ===== src/Tests/Queue.antt =====
-- Runs of the queue.
use high_throughput_notifica.Prelude.{◌≡◌, refl, true, false, none, some, [], ◌∷◌}
use high_throughput_notifica.Exec.{ok, ◌>>=◌, try_except}
use high_throughput_notifica.Decimal.{str, int}
use high_throughput_notifica.Services.{World, on_redis, publications}
use high_throughput_notifica.Queue.Publish.{
  Published, publish_retry-Published, publish_retry-stored,
}
use high_throughput_notifica.Queue.{dequeue, member_id, publish_retry}
use high_throughput_notifica.Queue.Order.{Taken, dequeue-Taken}
use high_throughput_notifica.Samples.{store, exchange}
use high_throughput_notifica.Samples.World.{services, otp, world, waiting, waiting_lem}

taken_run : (dequeue {E = services false true} (waiting false true (otp 1 0 ∷ []))).0 ≡ ok (some 7)
unfolding dequeue ◌>>=◌ try_except on_redis member_id int str waiting store
taken_run = refl

dequeue-Taken_example :
    Taken
      (services false true)
      0
      (waiting false true (otp 1 0 ∷ []))
      7
      (dequeue {E = services false true} (waiting false true (otp 1 0 ∷ []))).1
dequeue-Taken_example =
    dequeue-Taken (services false true) 0 (waiting false true (otp 1 0 ∷ [])) 7
      (waiting_lem false true (otp 1 0 ∷ [])) taken_run

publish_retry-Published_example :
    let (r, v) = publish_retry {E = services false true} 7 5 (world false true []) in
    Published (services false true) (publications (world false true [])) 7 5 r v
publish_retry-Published_example =
    publish_retry-Published (services false true) 7 5 (world false true [])

-- After one message the connection is stored.
unfoldable connected : World (services false true)
unfolding exchange
connected = record (world false true []) { rmq_connection = some tt; rmq_channel = some tt }

publish_retry-stored_example :
    publish_retry {E = services false true} 7 5 connected
    ≡ (ok false, record connected { rmq_connection = none; rmq_channel = none })
unfolding world connected exchange
publish_retry-stored_example = publish_retry-stored (services false true) 7 5 connected tt refl
