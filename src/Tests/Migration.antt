-- ===== src/Tests/Migration.antt =====
-- The migration on a database that holds another table with an index.
use high_throughput_notifica.Prelude.{str_eq, false, ◌≡◌, refl, String, false, none, [], ◌∷◌}
use high_throughput_notifica.Exec.{Exception, ok, err}
use high_throughput_notifica.Migration.{upgrade, downgrade}
use high_throughput_notifica.Migration.Schema.{
  stored, required, big_integer, a_table, an_index, Names, put,
}
use high_throughput_notifica.Migration.Mapped.{notification_metadata}
use high_throughput_notifica.Migration.Env.{run_migrations_online}
use high_throughput_notifica.Migration.Same.{Free, upgrade-Same}
use high_throughput_notifica.Samples.{names_only, runner, runner-Reachable}

abbrev users : Names
users =
    put "ix_users_id"
      (an_index "users" (record { name = "ix_users_id"; unique = false; columns = "id" ∷ [] }))
      (put "users" (a_table (stored (required "id" big_integer) ∷ [])) (λ u. none))

unfoldable start : names_only.Db
unfolding names_only
start = users

users-Free : Free (names_only.relation start)
unfolding names_only start
users-Free = record {
  table = refl;
  unique = refl;
  worker = refl;
  channel = refl;
  event_type = refl;
}

index_kept : names_only.relation start "ix_users_id" ≡ users "ix_users_id"
unfolding names_only start
index_kept = refl

upgrade-Same_example :
    let (r, v) = run_migrations_online runner (upgrade names_only) start in
    let (made, c) = names_only.create_all notification_metadata start in
    let (again, v') = names_only.create_all notification_metadata v in
    let (back, b) = run_migrations_online runner (downgrade names_only) v in
    let (late, l) = run_migrations_online runner (upgrade names_only) c in
    (r ≡ ok tt)
    × ((u : String)
        → str_eq u "alembic_version" ≡ false
        → names_only.relation v u ≡ names_only.relation c u)
    × ((u : String) → names_only.relation v' u ≡ names_only.relation v u)
    × (back ≡ ok tt)
    × ((u : String)
        → str_eq u "alembic_version" ≡ false
        → names_only.relation b u ≡ names_only.relation start u)
    × ((e : Exception) × (late ≡ err e))
    × ((u : String)
        → str_eq u "alembic_version" ≡ false
        → names_only.relation l u ≡ names_only.relation c u)
upgrade-Same_example = upgrade-Same names_only runner runner-Reachable start users-Free
