-- ===== src/Worker/Lost.antt =====
-- A round of a worker whose dispatch raises.
use high_throughput_notifica.Prelude.{ℕ, ◌≡◌, refl, none, some}
use high_throughput_notifica.Exec.{Exception, Result, ok, err, lift, pure, ◌>>=◌, try_except}
use high_throughput_notifica.Decimal.{str, int-str}
use high_throughput_notifica.Services.{Services, World, on_db, on_redis}
use high_throughput_notifica.Repository.{get_by_id}
use high_throughput_notifica.Repository.Table.{row}
use high_throughput_notifica.Queue.{queue_key, dequeue, member_id}
use high_throughput_notifica.Provider.{Providers}
use high_throughput_notifica.Dispatch.{Chance, dispatch}
use high_throughput_notifica.Worker.{worker_round, dispatch_next}

-- The identifier has left the queue, and nothing else has happened.
pub record Lost (E : Services) (w : World E) (i : ℕ) (r : Result (Unit {0})) (v : World E)
    : Type 0 where
  pub returned : r ≡ ok tt
  pub not_queued : E.redis.score v.redis queue_key (str i) ≡ none
  pub rows : (j : ℕ) → row v j ≡ row w j
  pub broker : v.broker ≡ w.broker
  pub outside : v.outside ≡ w.outside

-- When the database raises at the read of a notification that a worker has taken out of the queue, the
-- round ends without an exception: the notification is as it was, nothing has been sent or published,
-- and its identifier is not in the queue any more.
pub worker_round-Lost :
    (E : Services) (providers : Providers E.Outside) (chance : Chance) (w : World E) (i x : ℕ)
    (e : Exception)
    → (E.redis.bzpopmin queue_key w.redis).0 ≡ ok (some (str i, x))
    → (E.database.select i w.db).0 ≡ err e
    → let (r, v) = worker_round {E = E} providers chance w in Lost E w i r v
unfolding worker_round dequeue member_id dispatch_next dispatch get_by_id on_db on_redis try_except
    ◌>>=◌ lift pure
worker_round-Lost E providers chance w i x e popped raised =
    rw (popped, int-str i, raised)
      (record {
        returned = refl;
        not_queued = E.redis.pop_removed queue_key w.redis (str i) x popped;
        rows = λ j. E.database.select_keeps i j w.db;
        broker = refl;
        outside = refl;
      })
