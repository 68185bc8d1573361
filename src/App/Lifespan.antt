-- ===== src/App/Lifespan.antt =====
-- app/main.py: `lifespan`, which starts and stops the parts of the application.
use high_throughput_notifica.Prelude.{Bool, Option, List}
use high_throughput_notifica.Exec.{Exec, ok, ◌>>◌}
use high_throughput_notifica.Services.{Services, World, Topology, on_db}
use high_throughput_notifica.Queue.{close_rabbitmq}
use high_throughput_notifica.Handler.Start.{Callback, Consumer}
use high_throughput_notifica.Handler.Start as handler
use high_throughput_notifica.Provider.{Providers}
use high_throughput_notifica.Dispatch.{Chance}
use high_throughput_notifica.Worker.{worker_loop}
use high_throughput_notifica.Worker.Pool.{NotificationWorker}
use high_throughput_notifica.Worker.Pool as pool

-- The objects `worker` and `rabbitmq` of the module, and the world, which holds the object `queue`.
pub record Application (E : Services) : Type 0 where
  pub worker : NotificationWorker
  pub connection : Option E.broker.Connection
  pub channel : Option E.broker.Channel
  pub running : Bool
  pub world : World E

module _ {E : Services} where
  -- The handler, on the broker of the world.
  abbrev pub consumer : Application E → Consumer E.broker
  consumer a = record {
    connection = a.connection;
    channel = a.channel;
    running = a.running;
    broker = a.world.broker;
  }

  unfoldable pub on_worker : (NotificationWorker → NotificationWorker) → Exec (Application E) Unit
  on_worker f a = (ok tt, record a { worker = f a.worker })

  unfoldable pub on_consumer : {A : Type 0} → Exec (Consumer E.broker) A → Exec (Application E) A
  on_consumer m a =
      let (r, h) = m (consumer a) in
      (
        r,
        record a {
          connection = h.connection;
          channel = h.channel;
          running = h.running;
          world = record a.world { broker = h.broker };
        },
      )

  unfoldable pub on_world : {A : Type 0} → Exec (World E) A → Exec (Application E) A
  on_world m a = let (r, w) = m a.world in (r, record a { world = w })

  module _ (T : Topology E.broker Callback) (create_all : Exec E.database.Db (Unit {0})) where
    -- What comes before the `yield`. `create_all` is the whole `async with engine.begin()`.
    unfoldable pub startup : Exec (Application E) Unit
    startup = do
      on_world (on_db {E = E} create_all)
      on_worker pool.start
      on_consumer (handler.start T)

  module _ (providers : Providers E.Outside) (under_way : List Chance) where
    -- `worker.stop()` waits for the rounds that are under way.
    unfoldable pub stop_worker : Exec (Application E) Unit
    stop_worker = do on_worker pool.stop; on_world (worker_loop providers under_way)

    -- What comes after the `yield`.
    unfoldable pub shutdown : (dispose : Exec E.database.Db (Unit {0})) → Exec (Application E) Unit
    shutdown dispose = do
      stop_worker
      on_consumer handler.stop
      on_world (close_rabbitmq {E = E})
      on_world (on_db {E = E} dispose)

  -- An exception that the server throws in at the `yield` skips what comes after it.
  unfoldable pub lifespan :
      (T : Topology E.broker Callback)
      → (create_all dispose : Exec E.database.Db (Unit {0})) → Providers E.Outside
      → List Chance
      → Exec (Application E) (Unit {0})
      → Exec (Application E) Unit
  lifespan T create_all dispose providers under_way serve = do
    startup T create_all
    serve
    shutdown providers under_way dispose
