-- ===== src/Tests/Controller.antt =====
-- Answers of the routes.
use high_throughput_notifica.Prelude.{◌≡◌, refl, true, false, [], ◌∷◌}
use high_throughput_notifica.Exec.{ok}
use high_throughput_notifica.Services.{World}
use high_throughput_notifica.Repository.Table.{row}
use high_throughput_notifica.Manager.{redis_key}
use high_throughput_notifica.Controller.{post_notification, post_retry}
use high_throughput_notifica.Controller.Refused.{Conflict, post_notification-Conflict}
use high_throughput_notifica.Controller.Retry.{expected_reply, post_retry-Reply}
use high_throughput_notifica.Samples.{memory-Reliable, store}
use high_throughput_notifica.Samples.World.{services, otp, world}
use high_throughput_notifica.Tests.Manager.{request, start}

-- A world in which the key of the request is set.
unfoldable seen : World (services false true)
unfolding world store
seen = record start { redis = record start.redis { keys = "idem:payment-10" ∷ [] } }

post_notification-Conflict_example :
    let (r, v) = post_notification {E = services false true} (λ k. 500) request seen in
    Conflict (services false true) "payment-10" seen r v
unfolding seen store redis_key
post_notification-Conflict_example =
    post_notification-Conflict (services false true) (λ k. 500) request seen false refl refl

-- A failed notification with two retries behind it.
post_retry-Reply_example :
    (post_retry {E = services false true} 500 7 (world false true (otp 4 2 ∷ []))).0
    ≡ ok (expected_reply 7 (row {E = services false true} (world false true (otp 4 2 ∷ [])) 7))
post_retry-Reply_example =
    post_retry-Reply (services false true) memory-Reliable 500 7 (world false true (otp 4 2 ∷ []))
