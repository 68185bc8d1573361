-- ===== src/Tests/Lifespan.antt =====
-- The application from its start to its stop, on a broker that keeps what stands on it.
use high_throughput_notifica.Prelude.{ℕ, ◌≡◌, refl, false, true, none, [], ◌∷◌}
use high_throughput_notifica.Exec.{Exec, pure, ◌>>=◌, try_except}
use high_throughput_notifica.Services.{Services}
use high_throughput_notifica.Provider.{Providers}
use high_throughput_notifica.Worker.Pool.{new_worker}
use high_throughput_notifica.Handler.Start.{
  start, set_up, declare_all, bind_all, with_broker, set_connection, set_channel, set_running,
}
use high_throughput_notifica.App.Lifespan.{
  Application, startup, on_world, on_consumer, on_worker, lifespan,
}
use high_throughput_notifica.App.Lifetime.{Ran, lifespan-Ran}
use high_throughput_notifica.Services.{on_db}
use high_throughput_notifica.Samples.{memory, store, board, wired}
use high_throughput_notifica.Samples.World.{holding, idle, otp, chance, only_sms, provider, refused}

abbrev parts : Services
parts = record { database = memory false; redis = store; broker = board; Outside = ℕ }

abbrev tables : Exec parts.database.Db (Unit {0})
tables = pure tt

abbrev serving : Exec (Application parts) (Unit {0})
serving = pure tt

abbrev providers : Providers ℕ
providers = only_sms (provider true (refused 1))

unfoldable before : Application parts
unfolding memory store board
before = record {
  worker = new_worker 2 none;
  connection = none;
  channel = none;
  running = false;
  world = record {
    db = holding (otp 5 1 ∷ []);
    redis = idle;
    broker = record { facts = []; log = [] };
    rmq_connection = none;
    rmq_channel = none;
    expired = [];
    outside = 0;
  };
}

startup_run : (startup wired tables before).1.running ≡ true
unfolding startup on_world on_consumer on_worker on_db start set_up declare_all bind_all with_broker
    set_connection set_channel set_running board wired before ◌>>=◌ try_except pure
startup_run = refl

lifespan-Ran_example :
    let (r, b) = lifespan wired tables tables providers (chance ∷ []) serving before in
    Ran parts wired tables tables providers (chance ∷ []) serving before r b
lifespan-Ran_example =
    lifespan-Ran parts wired tables tables providers (chance ∷ []) serving before
      (unfold before in refl)
