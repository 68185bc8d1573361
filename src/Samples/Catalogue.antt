-- ===== src/Samples/Catalogue.antt =====
-- A database of names only, and a runner on it whose calls all answer.
use high_throughput_notifica.Prelude.{refl, String, true, false, Option, none, some, List, map}
use high_throughput_notifica.Exec.{Exec, Result, ok, err, other, pure}
use high_throughput_notifica.Migration.Schema.{
  Key, stored, Relation, a_table, an_index, Names, put, take_out, installed,
}
use high_throughput_notifica.Migration.Ddl.{Catalog}
use high_throughput_notifica.Migration.Env.{Runner, Reachable}
use high_throughput_notifica.Samples.Relations.{
  view, view-Closed, Closed-view, put_table-Closed, put_index-Closed, take_out-Closed, without,
  without-Closed,
}
use high_throughput_notifica.Samples.Installed.{AllFree, installed-Closed}

-- A command for a name that must be free, and one that does nothing for a name that is taken.
abbrev pub if_free : Option Relation → Names → Exec Names Unit
if_free none made d = (ok tt, made)
if_free (some r) made d = (err (other 2), d)

abbrev pub if_missing : Option Relation → Names → Exec Names Unit
if_missing none made d = (ok tt, made)
if_missing (some r) made d = (ok tt, d)

abbrev pub end_of : Result (Unit {0}) → Names → Exec Names Unit
end_of (ok _) after d = (ok tt, after)
end_of (err e) after d = (err e, d)

abbrev pub unique_key : String → List String → Key
unique_key name columns = record { name = name; unique = true; columns = columns }

abbrev pub plain_key : String → List String → Key
plain_key name columns = record { name = name; unique = false; columns = columns }

unfoldable pub names_only : Catalog
unfolding without AllFree
names_only = record {
  Db = Names;
  relation = view;
  Empty = λ d t. Unit;
  create_table =
      λ t columns d. if_free (view d t) (put t (a_table (map stored columns)) (view d)) d;
  create_unique_constraint =
      λ name t columns d. (ok tt, put name (an_index t (unique_key name columns)) (view d));
  create_index =
      λ name t columns d. (ok tt, put name (an_index t (plain_key name columns)) (view d));
  drop_index = λ name t d. (ok tt, take_out name (view d));
  drop_constraint = λ name t d. (ok tt, take_out name (view d));
  drop_table = λ t d. (ok tt, without t (view d));
  create_all = λ m d. if_missing (view d m.name) (installed m (view d)) d;
  index_table = λ d name t key stands. view-Closed d name t key stands;
  create_table_new = λ t columns d free.
      rw free (refl, tt, Closed-view _ (put_table-Closed (view d) t _ (view-Closed d) free));
  create_table_old = λ t columns d r taken. (other 2, rw taken refl);
  create_unique_new = λ name t columns cs d there known empty free.
      (refl, Closed-view _ (put_index-Closed (view d) name t cs _ (view-Closed d) there free));
  create_index_new = λ name t columns cs d there known free.
      (refl, Closed-view _ (put_index-Closed (view d) name t cs _ (view-Closed d) there free));
  drop_index_old = λ name t key d there plain.
      (refl, Closed-view _ (take_out-Closed (view d) name t key (view-Closed d) there));
  drop_constraint_old = λ name t key d there unique.
      (refl, Closed-view _ (take_out-Closed (view d) name t key (view-Closed d) there));
  drop_table_old =
      λ t columns d there. (refl, Closed-view _ (without-Closed (view d) t (view-Closed d)));
  create_all_new = λ m d is_sound free keys_free.
      rw free
        (refl, Closed-view _ (installed-Closed m (view d) (view-Closed d) is_sound free keys_free));
  create_all_old = λ m d columns there. rw there (refl, λ u. refl);
}

unfoldable pub runner : Runner names_only
unfolding names_only pure
runner = record {
  is_offline_mode = false;
  configure_url = pure tt;
  configure_connection = pure tt;
  connect = pure tt;
  close = pure tt;
  dispose = pure tt;
  in_transaction = λ m d. end_of (m d).0 (m d).1 d;
  run_migrations = λ m. m;
  configure_keeps = λ d u. refl;
  connect_keeps = λ d u. refl;
  close_keeps = λ d u. refl;
  dispose_keeps = λ d u. refl;
  committed = λ m d returned. rw returned (refl, λ u. refl);
  rolled_back = λ m d e raised. rw raised (refl, λ u. refl);
}

pub runner-Reachable : Reachable runner
unfolding runner pure
runner-Reachable = record {
  configure_total = λ d. refl;
  connect_total = λ d. refl;
  close_total = λ d. refl;
  dispose_total = λ d. refl;
  runs = λ m d. (d, λ u ours. refl, refl, λ u ours. refl);
}
