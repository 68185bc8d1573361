-- ===== src/Migration/Views.antt =====
-- What the commands do to the names of a database, as functions on names.
use high_throughput_notifica.Prelude.{
  ◌≡◌, ap, ◌∙◌, true, false, String, none, some, List, map, str_eq, if◌then◌else◌,
}
use high_throughput_notifica.Exec.{Exec, Result, ok, ◌>>◌}
use high_throughput_notifica.Exec.Ends.{Ends, seq-Ends}
use high_throughput_notifica.Exec.Results.{ok≢err}
use high_throughput_notifica.Migration.Schema.{
  Column, Key, Stored, stored, Relation, a_table, an_index, Names, put, take_out, unless_of,
  has_columns,
}
use high_throughput_notifica.Migration.Ddl.{Catalog}

-- Alembic keeps a table of its own; the other names are the program's.
abbrev pub Ours : String → Type 0
Ours u = str_eq u "alembic_version" ≡ false

module _ (C : Catalog) where
  abbrev pub View : C.Db → Names → Type 0
  View d names = (u : String) → Ours u → C.relation d u ≡ names u

  -- The command returns, and leaves these names.
  abbrev pub Done : Names → Result (Unit {0}) → C.Db → Type 0
  Done names r d = (r ≡ ok tt) × View d names

  pub then-Done :
      (m rest : Exec C.Db (Unit {0})) (d : C.Db) (before after : Names)
      → Ends (Done before) m d
      → ((d' : C.Db) → View d' before → Ends (Done after) rest d')
      → Ends (Done after) (m >> rest) d
  then-Done m rest d before after first second =
      seq-Ends {P = Done before} _ _ d first (λ e x q. absurd (ok≢err q.0)) λ a x q. second x q.1

  module _ (d : C.Db) (names : Names) (view : View d names) where
    put-View :
        (name : String) (r : Relation) (u : String)
        → Ours u
        → put name r (C.relation d) u ≡ put name r names u
    put-View name r u ours = ap (λ x. if str_eq u name then some r else x) (view u ours)

    take_out-View :
        (name u : String) → Ours u → take_out name (C.relation d) u ≡ take_out name names u
    take_out-View name u ours = ap (λ x. if str_eq u name then none else x) (view u ours)

    pub create_table-Done :
        (t : String) (columns : List Column)
        → Ours t
        → names t ≡ none
        → Ends
            (λ r d'. Done (put t (a_table (map stored columns)) names) r d' × C.Empty d' t)
            (C.create_table t columns)
            d
    create_table-Done t columns ours_t free =
        let (returns, empty, made) = C.create_table_new t columns d (view t ours_t ∙ free) in
        record { at = ((returns, λ u ours. made u ∙ put-View t _ u ours), empty) }

    pub create_unique-Done :
        (name t : String) (columns : List String) (stored_columns : List Stored)
        → Ours name
        → Ours t
        → names t ≡ some (a_table stored_columns)
        → has_columns columns stored_columns ≡ true
        → C.Empty d t
        → names name ≡ none
        → Ends
            (Done (
              put name
                (an_index t (record { name = name; unique = true; columns = columns }))
                names))
            (C.create_unique_constraint name t columns)
            d
    create_unique-Done name t columns cs ours ours_t there known empty free =
        let (returns, made) =
          C.create_unique_new name t columns cs d (view t ours_t ∙ there) known empty
            (view name ours ∙ free) in
        record { at = (returns, λ u ours. made u ∙ put-View name _ u ours) }

    pub create_index-Done :
        (name t : String) (columns : List String) (stored_columns : List Stored)
        → Ours name
        → Ours t
        → names t ≡ some (a_table stored_columns)
        → has_columns columns stored_columns ≡ true
        → names name ≡ none
        → Ends
            (Done (
              put name
                (an_index t (record { name = name; unique = false; columns = columns }))
                names))
            (C.create_index name t columns)
            d
    create_index-Done name t columns cs ours ours_t there known free =
        let (returns, made) =
          C.create_index_new name t columns cs d (view t ours_t ∙ there) known
            (view name ours ∙ free) in
        record { at = (returns, λ u ours. made u ∙ put-View name _ u ours) }

    pub drop_index-Done :
        (name t : String) (key : Key)
        → Ours name
        → names name ≡ some (an_index t key)
        → key.unique ≡ false
        → Ends (Done (take_out name names)) (C.drop_index name t) d
    drop_index-Done name t key ours there plain =
        let (returns, dropped) = C.drop_index_old name t key d (view name ours ∙ there) plain in
        record { at = (returns, λ u ours. dropped u ∙ take_out-View name u ours) }

    pub drop_constraint-Done :
        (name t : String) (key : Key)
        → Ours name
        → names name ≡ some (an_index t key)
        → key.unique ≡ true
        → Ends (Done (take_out name names)) (C.drop_constraint name t) d
    drop_constraint-Done name t key ours there unique =
        let (returns, dropped) =
          C.drop_constraint_old name t key d (view name ours ∙ there) unique in
        record { at = (returns, λ u ours. dropped u ∙ take_out-View name u ours) }

    pub drop_table-Done :
        (t : String) (columns : List Stored)
        → Ours t
        → names t ≡ some (a_table columns)
        → Ends (Done (λ u. unless_of t (take_out t names u))) (C.drop_table t) d
    drop_table-Done t columns ours_t there =
        let (returns, dropped) = C.drop_table_old t columns d (view t ours_t ∙ there) in
        record { at = (returns, λ u ours. dropped u ∙ ap (unless_of t) (take_out-View t u ours)) }
