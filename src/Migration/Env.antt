-- ===== src/Migration/Env.antt =====
-- alembic/env.py: how a migration script is run. `script` is what the command gives to run, `emit` the
-- same in the offline mode, which writes SQL down instead.
use high_throughput_notifica.Prelude.{◌≡◌, String, Bool, false, str_eq, if◌then◌else◌}
use high_throughput_notifica.Exec.{Exec, Exception, ok, err, ◌>>◌, try_finally}
use high_throughput_notifica.Migration.Ddl.{Catalog}

-- `context` and the engine. The body of a transaction is committed, or rolled back if it raises.
pub record Runner (C : Catalog) : Type 0 where
  pub is_offline_mode : Bool
  pub configure_url : Exec C.Db Unit
  pub configure_connection : Exec C.Db Unit
  pub connect : Exec C.Db Unit
  pub close : Exec C.Db Unit
  pub dispose : Exec C.Db Unit
  pub in_transaction : Exec C.Db Unit → Exec C.Db Unit
  -- `context.run_migrations()`: alembic runs the script, and keeps its table alembic_version
  pub run_migrations : Exec C.Db Unit → Exec C.Db Unit
  pub configure_keeps :
      (d : C.Db) (u : String) → C.relation (configure_connection d).1 u ≡ C.relation d u
  pub connect_keeps : (d : C.Db) (u : String) → C.relation (connect d).1 u ≡ C.relation d u
  pub close_keeps : (d : C.Db) (u : String) → C.relation (close d).1 u ≡ C.relation d u
  pub dispose_keeps : (d : C.Db) (u : String) → C.relation (dispose d).1 u ≡ C.relation d u
  pub committed :
      (m : Exec C.Db Unit) (d : C.Db)
      → (m d).0 ≡ ok tt
      → ((in_transaction m d).0 ≡ ok tt)
        × ((u : String) → C.relation (in_transaction m d).1 u ≡ C.relation (m d).1 u)
  pub rolled_back :
      (m : Exec C.Db Unit) (d : C.Db) (e : Exception)
      → (m d).0 ≡ err e
      → ((in_transaction m d).0 ≡ err e)
        × ((u : String) → C.relation (in_transaction m d).1 u ≡ C.relation d u)

-- The database answers, and alembic can keep its own table there: before the script and after it,
-- `run_migrations` changes no other name.
pub record Reachable {C : Catalog} (X : Runner C) : Type 0 where
  pub configure_total : (d : C.Db) → (X.configure_connection d).0 ≡ ok tt
  pub connect_total : (d : C.Db) → (X.connect d).0 ≡ ok tt
  pub close_total : (d : C.Db) → (X.close d).0 ≡ ok tt
  pub dispose_total : (d : C.Db) → (X.dispose d).0 ≡ ok tt
  pub runs :
      (m : Exec C.Db Unit) (d : C.Db)
      → (v : C.Db) × ((u : String)
          → str_eq u "alembic_version" ≡ false
          → C.relation v u ≡ C.relation d u)
        × ((X.run_migrations m d).0 ≡ (m v).0)
        × ((u : String)
            → str_eq u "alembic_version" ≡ false
            → C.relation (X.run_migrations m d).1 u ≡ C.relation (m v).1 u)

module _ {C : Catalog} (X : Runner C) where
  unfoldable pub run_migrations_offline : (emit : Exec C.Db (Unit {0})) → Exec C.Db Unit
  run_migrations_offline emit = do X.configure_url; X.in_transaction (X.run_migrations emit)

  unfoldable pub do_run_migrations : (script : Exec C.Db (Unit {0})) → Exec C.Db Unit
  do_run_migrations script = do X.configure_connection; X.in_transaction (X.run_migrations script)

  -- `async with connectable.connect()`, then `connectable.dispose()`
  unfoldable pub run_async_migrations : (script : Exec C.Db (Unit {0})) → Exec C.Db Unit
  run_async_migrations script = do
    X.connect
    try_finally (do_run_migrations script) X.close
    X.dispose

  unfoldable pub run_migrations_online : (script : Exec C.Db (Unit {0})) → Exec C.Db Unit
  run_migrations_online script = run_async_migrations script

  -- The last lines of the module.
  unfoldable pub run : (emit script : Exec C.Db (Unit {0})) → Exec C.Db Unit
  run emit script =
      if X.is_offline_mode then run_migrations_offline emit else run_migrations_online script
