-- ===== src/Migration/Schema.antt =====
-- SQLAlchemy's words for a table, and what the names of a database stand for.
use high_throughput_notifica.Prelude.{
  ℕ, String, Bool, true, false, not, ◌&&◌, ◌||◌, Option, none, some, List, [], ◌∷◌, map, str_eq,
  if◌then◌else◌,
}

pub data ColumnType : Type 0 where
  big_integer integer jsonb timestamp_with_timezone : ColumnType
  varchar : (length : ℕ) → ColumnType

-- `Column(…)`. `default` and `onupdate_now` are values that SQLAlchemy fills in by itself.
pub record Column : Type 0 where
  pub name : String
  pub column_type : ColumnType
  pub primary_key : Bool
  pub autoincrement : Bool
  pub nullable : Bool
  pub server_default_now : Bool
  pub default : Option ℕ
  pub onupdate_now : Bool

-- `Column(name, type)`
abbrev pub column : String → ColumnType → Column
column name column_type = record {
  name = name;
  column_type = column_type;
  primary_key = false;
  autoincrement = false;
  nullable = true;
  server_default_now = false;
  default = none;
  onupdate_now = false;
}

-- `Column(name, type, nullable=False)`
abbrev pub required : String → ColumnType → Column
required name column_type = record (column name column_type) { nullable = false }

-- A named index or unique constraint on columns.
pub record Key : Type 0 where
  pub name : String
  pub unique : Bool
  pub columns : List String

-- The class of a table: its columns, and `__table_args__`.
pub record Metadata : Type 0 where
  pub name : String
  pub columns : List Column
  pub keys : List Key

-- What the database knows of a column.
pub record Stored : Type 0 where
  pub name : String
  pub column_type : ColumnType
  pub primary_key : Bool
  pub autoincrement : Bool
  pub nullable : Bool
  pub server_default_now : Bool

abbrev pub stored : Column → Stored
stored c = record {
  name = c.name;
  column_type = c.column_type;
  primary_key = c.primary_key;
  autoincrement = c.autoincrement;
  nullable = c.nullable;
  server_default_now = c.server_default_now;
}

-- What a name stands for in a database; a unique constraint is known by its index.
pub data Relation : Type 0 where
  a_table : List Stored → Relation
  an_index : (table : String) → Key → Relation

abbrev pub Names : Type 0
Names = String → Option Relation

abbrev pub put : String → Relation → Names → Names
put name relation names u = if str_eq u name then some relation else names u

abbrev pub take_out : String → Names → Names
take_out name names u = if str_eq u name then none else names u

-- The names without the indexes of a table.
abbrev pub is_of : String → Relation → Bool
is_of table (a_table columns) = false
is_of table (an_index on key) = str_eq on table

abbrev pub unless_of : String → Option Relation → Option Relation
unless_of table none = none
unless_of table (some relation) = if is_of table relation then none else some relation

abbrev pub put_keys : String → List Key → Names → Names
put_keys table [] names = names
put_keys table (key ∷ rest) names = put_keys table rest (put key.name (an_index table key) names)

-- The names once a table of a class is there, with its keys.
abbrev pub installed : Metadata → Names → Names
installed m names = put_keys m.name m.keys (put m.name (a_table (map stored m.columns)) names)

abbrev pub has_column : String → List Stored → Bool
has_column name [] = false
has_column name (c ∷ rest) = str_eq c.name name || has_column name rest

abbrev pub has_columns : List String → List Stored → Bool
has_columns [] columns = true
has_columns (name ∷ rest) columns = has_column name columns && has_columns rest columns

abbrev pub has_key : String → List Key → Bool
has_key name [] = false
has_key name (key ∷ rest) = str_eq key.name name || has_key name rest

-- The keys have names of their own, and columns that are there.
abbrev pub sound_keys : String → List Stored → List Key → Bool
sound_keys table columns [] = true
sound_keys table columns (key ∷ rest) =
    not (str_eq key.name table)
    && not (has_key key.name rest)
    && has_columns key.columns columns
    && sound_keys table columns rest

abbrev pub sound : Metadata → Bool
sound m = sound_keys m.name (map stored m.columns) m.keys
