-- ===== src/App/Shutdown.antt =====
-- The shutdown of the application: every way in which it can end.
use high_throughput_notifica.Prelude.{
  ◌≡◌, refl, sym, ap, ◌∙◌, subst, false, Option, none, some, List,
}
use high_throughput_notifica.Exec.{Exec, Exception, Result, ok, err, pure, ◌>>=◌, ◌>>◌}
use high_throughput_notifica.Exec.Ends.{
  Ends, bind-Ends, seq-Ends, try_pure-returns, both-Ends, Keeps-Ends, weaken-Ends,
}
use high_throughput_notifica.Exec.Results.{ok≢err}
use high_throughput_notifica.Services.{Broker, Services, World, on_db}
use high_throughput_notifica.Queue.{close_rabbitmq}
use high_throughput_notifica.Queue.Frame.{close_rabbitmq-frame}
use high_throughput_notifica.Handler.Start.{Consumer, with_broker, set_running, close_connection}
use high_throughput_notifica.Handler.Start as handler
use high_throughput_notifica.Provider.{Providers}
use high_throughput_notifica.Dispatch.{Chance}
use high_throughput_notifica.Worker.{worker_loop}
use high_throughput_notifica.Worker.Pool.{NotificationWorker}
use high_throughput_notifica.Worker.Pool as pool
use high_throughput_notifica.Worker.Tasks.{worker_loop-returns}
use high_throughput_notifica.App.Lifespan.{
  Application, consumer, on_worker, on_consumer, on_world, stop_worker, shutdown,
}

module _ (E : Services) where
  -- The flags on which the loops of the pool and the callbacks of the handler depend are down.
  pub record Off (b : Application E) : Type 0 where
    pub quiet : b.worker.running ≡ false
    pub idle : b.running ≡ false

-- The application after the rounds under way have ended.
abbrev pub drained :
    {E : Services} → Providers E.Outside → List Chance → Application E → Application E
drained providers under_way d = record d {
  worker = pool.stop d.worker;
  world = (worker_loop providers under_way d.world).1;
}

module _ (E : Services) (providers : Providers E.Outside) (under_way : List Chance)
    (dispose : Exec E.database.Db (Unit {0})) where
  -- The end of a shutdown of `d`.
  pub data Shut (d : Application E) (r : Result (Unit {0})) (b : Application E) : Type 0 where
    connection_left :
        (e : Exception)
        → (handler.stop (consumer (drained providers under_way d))).0 ≡ err e
        → r ≡ err e
        → b.world.rmq_connection ≡ (drained providers under_way d).world.rmq_connection
        → b.world.rmq_channel ≡ (drained providers under_way d).world.rmq_channel
        → b.world.db ≡ (drained providers under_way d).world.db
        → Shut d r b
    closed :
        (handler.stop (consumer (drained providers under_way d))).0 ≡ ok tt
        → r ≡ (dispose (drained providers under_way d).world.db).0
        → b.world.db ≡ (dispose (drained providers under_way d).world.db).1
        → Shut d r b

on_world-Ends :
    {E : Services} {A : Type 0} {P : Result A → World E → Type 0} (m : Exec (World E) A)
    (a : Application E)
    → Ends P m a.world
    → Ends (λ r b. P r b.world × (b ≡ record a { world = b.world })) (on_world m) a
unfolding on_world
on_world-Ends m a e = record { at = (e.at, refl) }

close_connection-idle :
    {B : Broker} (c : Option B.Connection) (h : Consumer B)
    → h.running ≡ false
    → (close_connection c h).1.running ≡ false
unfolding close_connection with_broker pure
close_connection-idle none h idle = idle
close_connection-idle (some c) h idle = idle

stop-idle : {B : Broker} (h : Consumer B) → (handler.stop h).1.running ≡ false
unfolding handler.stop set_running pure ◌>>=◌
stop-idle h = close_connection-idle h.connection (record h { running = false }) refl

-- Closing the connection of the queue raises nothing, and touches the broker only.
close_rabbitmq-Ends :
    {E : Services} (w : World E)
    → Ends (λ r v. (r ≡ ok tt) × (v.db ≡ w.db)) (close_rabbitmq {E = E}) w
unfolding close_rabbitmq
close_rabbitmq-Ends {E} w =
    weaken-Ends _ w
      (both-Ends _ w (try_pure-returns _ tt w)
        (Keeps-Ends {P = λ v. v.db ≡ w.db} _ w (close_rabbitmq-frame E (λ d r o. d ≡ w.db)) refl))
      λ r v q. (q.0.1, q.1)

module _ (E : Services) (providers : Providers E.Outside) (under_way : List Chance) where
  Off-same : (a b : Application E) → b.worker ≡ a.worker → b.running ≡ a.running → Off E a → Off E b
  Off-same a b same_worker same_running off = record {
    quiet = ap (λ (x : NotificationWorker). x.running) same_worker ∙ off.quiet;
    idle = same_running ∙ off.idle;
  }

  stop_worker-Ends :
      (d : Application E)
      → Ends
          (λ r x. (r ≡ ok tt) × (x ≡ drained providers under_way d))
          (stop_worker providers under_way)
          d
  unfolding stop_worker on_worker on_world ◌>>=◌
  stop_worker-Ends d = record {
    at = ((worker_loop-returns E providers under_way d.world).at, refl);
  }

  -- What follows the stop of the workers.
  abbrev after_stop : Exec E.database.Db (Unit {0}) → Exec (Application E) Unit
  after_stop dispose = do
    on_consumer handler.stop
    on_world (close_rabbitmq {E = E})
    on_world (on_db {E = E} dispose)

  after_stop-Ends :
      (dispose : Exec E.database.Db (Unit {0})) (d : Application E)
      → Ends
          (λ r b. Shut E providers under_way dispose d r b × Off E b)
          (after_stop dispose)
          (drained providers under_way d)
  unfolding on_consumer on_world on_db pool.stop
  after_stop-Ends dispose d =
      bind-Ends _ _ _ (λ e raised. (connection_left e raised refl refl refl refl, off))
        λ a stopped.
          seq-Ends _ _ _ (on_world-Ends _ _ (close_rabbitmq-Ends _))
            (λ e x q. absurd (ok≢err q.0.0))
            λ a x q. record {
              at = (
                closed stopped (ap (λ s. (dispose s).0) q.0.1) (ap (λ s. (dispose s).1) q.0.1),
                Off-same _ _ (ap (λ (y : Application E). y.worker) q.1)
                    (ap (λ (y : Application E). y.running) q.1) off,
              );
            }
    where
      off : Off E (on_consumer handler.stop (drained providers under_way d)).1
      off = record { quiet = refl; idle = stop-idle (consumer (drained providers under_way d)) }

  pub shutdown-Ends :
      (dispose : Exec E.database.Db (Unit {0})) (d : Application E)
      → Ends
          (λ r b. Shut E providers under_way dispose d r b × Off E b)
          (shutdown providers under_way dispose)
          d
  unfolding shutdown
  shutdown-Ends dispose d =
      seq-Ends {P = λ r x. (r ≡ ok tt) × (x ≡ drained providers under_way d)} _ _ d
        (stop_worker-Ends d) (λ e x q. absurd (ok≢err q.0))
        λ a x q.
          subst
            (λ y.
              Ends (λ r b. Shut E providers under_way dispose d r b × Off E b) (after_stop dispose)
                y)
            (sym q.1) (after_stop-Ends dispose d)
