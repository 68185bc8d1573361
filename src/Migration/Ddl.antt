-- ===== src/Migration/Ddl.antt =====
-- PostgreSQL's catalogue under the commands of alembic's `op` and of `Base.metadata`. The view forgets
-- what a table brings along by itself, the index of its primary key and its sequence.
use high_throughput_notifica.Prelude.{◌≡◌, true, false, String, Option, none, some, List, map, All}
use high_throughput_notifica.Exec.{Exec, Exception, ok, err}
use high_throughput_notifica.Migration.Schema.{
  Column, Key, Metadata, Stored, stored, Relation, a_table, an_index, put, take_out, unless_of,
  installed, has_columns, sound,
}

pub record Catalog : Type 1 where
  pub Db : Type 0
  pub relation : Db → String → Option Relation
  -- no row in a table
  pub Empty : Db → String → Type 0
  pub create_table : String → List Column → Exec Db Unit
  pub create_unique_constraint : (name table : String) → List String → Exec Db Unit
  pub create_index : (name table : String) → List String → Exec Db Unit
  pub drop_index : (name table : String) → Exec Db Unit
  pub drop_constraint : (name table : String) → Exec Db Unit
  pub drop_table : String → Exec Db Unit
  pub create_all : Metadata → Exec Db Unit
  -- an index stands on a table
  pub index_table :
      (d : Db) (name table : String) (key : Key)
      → relation d name ≡ some (an_index table key)
      → (columns : List Stored) × (relation d table ≡ some (a_table columns))
  pub create_table_new :
      (t : String) (columns : List Column) (d : Db)
      → relation d t ≡ none
      → ((create_table t columns d).0 ≡ ok tt)
        × Empty (create_table t columns d).1 t
        × ((u : String)
            → relation (create_table t columns d).1 u
              ≡ put t (a_table (map stored columns)) (relation d) u)
  pub create_table_old :
      (t : String) (columns : List Column) (d : Db) (r : Relation)
      → relation d t ≡ some r
      → (e : Exception) × ((create_table t columns d).0 ≡ err e)
  pub create_unique_new :
      (name t : String) (columns : List String) (stored_columns : List Stored) (d : Db)
      → relation d t ≡ some (a_table stored_columns)
      → has_columns columns stored_columns ≡ true
      → Empty d t
      → relation d name ≡ none
      → ((create_unique_constraint name t columns d).0 ≡ ok tt)
        × ((u : String)
            → relation (create_unique_constraint name t columns d).1 u
              ≡ put name
                  (an_index t (record { name = name; unique = true; columns = columns }))
                  (relation d)
                  u)
  pub create_index_new :
      (name t : String) (columns : List String) (stored_columns : List Stored) (d : Db)
      → relation d t ≡ some (a_table stored_columns)
      → has_columns columns stored_columns ≡ true
      → relation d name ≡ none
      → ((create_index name t columns d).0 ≡ ok tt)
        × ((u : String)
            → relation (create_index name t columns d).1 u
              ≡ put name
                  (an_index t (record { name = name; unique = false; columns = columns }))
                  (relation d)
                  u)
  pub drop_index_old :
      (name t : String) (key : Key) (d : Db)
      → relation d name ≡ some (an_index t key)
      → key.unique ≡ false
      → ((drop_index name t d).0 ≡ ok tt)
        × ((u : String) → relation (drop_index name t d).1 u ≡ take_out name (relation d) u)
  pub drop_constraint_old :
      (name t : String) (key : Key) (d : Db)
      → relation d name ≡ some (an_index t key)
      → key.unique ≡ true
      → ((drop_constraint name t d).0 ≡ ok tt)
        × ((u : String) → relation (drop_constraint name t d).1 u ≡ take_out name (relation d) u)
  pub drop_table_old :
      (t : String) (columns : List Stored) (d : Db)
      → relation d t ≡ some (a_table columns)
      → ((drop_table t d).0 ≡ ok tt)
        × ((u : String) → relation (drop_table t d).1 u ≡ unless_of t (take_out t (relation d) u))
  -- the tables that are missing are made, the others are left as they are
  pub create_all_new :
      (m : Metadata) (d : Db)
      → sound m ≡ true
      → relation d m.name ≡ none
      → All (λ (key : Key). relation d key.name ≡ none) m.keys
      → ((create_all m d).0 ≡ ok tt)
        × ((u : String) → relation (create_all m d).1 u ≡ installed m (relation d) u)
  pub create_all_old :
      (m : Metadata) (d : Db) (columns : List Stored)
      → relation d m.name ≡ some (a_table columns)
      → ((create_all m d).0 ≡ ok tt) × ((u : String) → relation (create_all m d).1 u ≡ relation d u)
