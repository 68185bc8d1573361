-- ===== src/Services/Frame.antt =====
-- An action of one service leaves the states of the others as they are.
use high_throughput_notifica.Exec.{Exec}
use high_throughput_notifica.Exec.Keeps.{Keeps}
use high_throughput_notifica.Services.{Services, on_db, on_redis, on_broker, on_outside}

-- The predicates on what an action of the broker, of Redis, of the outside leaves alone.
abbrev pub BesideBroker : Services → Type 1
BesideBroker E = E.database.Db → E.redis.State → E.Outside → Type 0

abbrev pub BesideRedis : Services → Type 1
BesideRedis E = E.database.Db → E.broker.State → E.Outside → Type 0

module _ (E : Services) {A : Type 0} where
  pub on_broker-frame :
      (P : BesideBroker E) (m : Exec E.broker.State A)
      → Keeps (λ w. P w.db w.redis w.outside) (on_broker {E = E} m)
  unfolding on_broker
  on_broker-frame P m = record { at = λ w p. p }

  pub on_redis-frame :
      (P : BesideRedis E) (m : Exec E.redis.State A)
      → Keeps (λ w. P w.db w.broker w.outside) (on_redis {E = E} m)
  unfolding on_redis
  on_redis-frame P m = record { at = λ w p. p }

  pub on_outside-frame :
      (P : E.database.Db → E.redis.State → E.broker.State → Type 0) (m : Exec E.Outside A)
      → Keeps (λ w. P w.db w.redis w.broker) (on_outside {E = E} m)
  unfolding on_outside
  on_outside-frame P m = record { at = λ w p. p }

  pub on_db-frame :
      (P : E.redis.State → E.broker.State → E.Outside → Type 0) (m : Exec E.database.Db A)
      → Keeps (λ w. P w.redis w.broker w.outside) (on_db {E = E} m)
  unfolding on_db
  on_db-frame P m = record { at = λ w p. p }
