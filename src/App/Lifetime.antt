-- ===== src/App/Lifetime.antt =====
-- A run of the application from its start to its stop: every way in which it can end.
use high_throughput_notifica.Prelude.{◌≡◌, refl, sym, true, false, List}
use high_throughput_notifica.Exec.{Exec, Exception, Result, ok, err, ◌>>◌}
use high_throughput_notifica.Exec.Ends.{Ends, bind-Ends, seq-Ends, weaken-Ends}
use high_throughput_notifica.Exec.Results.{ok≢err}
use high_throughput_notifica.Services.{Services, Topology, on_db}
use high_throughput_notifica.Handler.Start.{Callback}
use high_throughput_notifica.Handler.Started.{wiring, Stand, start-Ends}
use high_throughput_notifica.Provider.{Providers}
use high_throughput_notifica.Dispatch.{Chance}
use high_throughput_notifica.Worker.Tasks.{Whole, start-Whole}
use high_throughput_notifica.App.Lifespan.{
  Application, consumer, on_worker, on_consumer, on_world, startup, shutdown, lifespan,
}
use high_throughput_notifica.App.Shutdown.{Off, Shut, shutdown-Ends}

module _ (E : Services) where
  -- The application `c` after a start from `a`.
  pub record Started (T : Topology E.broker Callback) (create_all : Exec E.database.Db (Unit {0}))
      (a c : Application E) : Type 0 where
    pub tasks : Whole a.worker.concurrency c.worker
    pub db : c.world.db ≡ (create_all a.world.db).1
    pub redis : c.world.redis ≡ a.world.redis
    pub wired : c.running ≡ true → Stand T (consumer c) wiring

module _ (E : Services) (T : Topology E.broker Callback)
    (create_all dispose : Exec E.database.Db (Unit {0})) (providers : Providers E.Outside)
    (under_way : List Chance) where
  -- The end of a run from `a`.
  pub data Ran (serve : Exec (Application E) (Unit {0})) (a : Application E) (r : Result (Unit {0}))
      (b : Application E) : Type 0 where
    not_started :
        (e : Exception)
        → (create_all a.world.db).0 ≡ err e
        → r ≡ err e
        → b.worker ≡ a.worker
        → consumer b ≡ consumer a
        → Ran serve a r b
    broken_off :
        (c : Application E) (e : Exception)
        → Started E T create_all a c
        → (serve c).0 ≡ err e
        → r ≡ err e
        → b ≡ (serve c).1
        → Ran serve a r b
    ended :
        (c : Application E)
        → Started E T create_all a c
        → (serve c).0 ≡ ok tt
        → Shut E providers under_way dispose (serve c).1 r b
        → Off E b
        → Ran serve a r b

module _ (E : Services) (T : Topology E.broker Callback)
    (create_all : Exec E.database.Db (Unit {0})) where
  -- A start raises where `create_all` does, and then has done nothing else.
  data Up (a : Application E) (r : Result (Unit {0})) (c : Application E) : Type 0 where
    refused :
        (e : Exception)
        → (create_all a.world.db).0 ≡ err e
        → r ≡ err e
        → c.worker ≡ a.worker
        → consumer c ≡ consumer a
        → Up a r c
    up : r ≡ ok tt → Started E T create_all a c → Up a r c

  startup-Ends : (a : Application E) → a.running ≡ false → Ends (Up a) (startup T create_all) a
  unfolding startup on_worker on_consumer on_world on_db
  startup-Ends a idle =
      bind-Ends _ _ _ (λ e raised. refused e raised refl refl refl)
        λ _ _.
          bind-Ends _ _ _ (λ e raised. absurd (ok≢err (sym raised)))
            λ _ _.
              let S = (start-Ends T _ idle).at in
              record {
                at =
                    up S.0 (record {
                      tasks = start-Whole a.worker;
                      db = refl;
                      redis = refl;
                      wired = S.1;
                    });
              }

-- A run of the application whose handler does not run at first, whatever the services do, ends in one
-- of three ways. When the creation of the tables raises, it raises that, and neither a task of the
-- pool nor the handler was started. Otherwise the pool runs with one task for each number below its
-- concurrency and no other one, and, if the handler runs, its exchanges, queues, bindings and consumers
-- stand on the broker. When serving then raises, the run
-- raises that as it is, without a shutdown. When serving returns, the flags are down on which the
-- loops of the pool and the handler depend; the run raises what closing the handler's connection raises, and then leaves
-- the connection of the queue and the database engine as they are, or it ends as the disposal of the
-- engine does.
pub lifespan-Ran :
    (E : Services) (T : Topology E.broker Callback)
    (create_all dispose : Exec E.database.Db (Unit {0})) (providers : Providers E.Outside)
    (under_way : List Chance) (serve : Exec (Application E) (Unit {0})) (a : Application E)
    → a.running ≡ false
    → let (r, b) = lifespan T create_all dispose providers under_way serve a in
      Ran E T create_all dispose providers under_way serve a r b
unfolding lifespan
lifespan-Ran E T create_all dispose providers under_way serve a idle =
    (seq-Ends {P = Up E T create_all a} _ _ a (startup-Ends E T create_all a idle) not_up served).at
  where
    Q : Result (Unit {0}) → Application E → Type 0
    Q = Ran E T create_all dispose providers under_way serve a

    not_up : (e : Exception) (c : Application E) → Up E T create_all a (err e) c → Q (err e) c
    not_up e c (refused x raised is_x same_worker same_handler) =
        not_started x raised is_x same_worker same_handler
    not_up e c (up returned started) = absurd (ok≢err returned)

    served :
        (t : Unit {0}) (c : Application E)
        → Up E T create_all a (ok t) c
        → Ends Q (serve >> shutdown providers under_way dispose) c
    served t c (refused x raised is_x same_worker same_handler) = absurd (ok≢err (sym is_x))
    served t c (up returned started) =
        bind-Ends _ _ c (λ e raised. broken_off c e started raised refl refl)
          λ _ is_served.
            weaken-Ends _ _ (shutdown-Ends E providers under_way dispose (serve c).1)
              λ r b q. ended c started is_served q.0 q.1
