-- ===== src/Migrations/Ddl.antt =====
-- The schema statements that the migrations of server/alembic/versions use, and what each does to
-- the tables of a database: `none` is a statement that PostgreSQL refuses.
use rpi_io_t_server_project.Base.{
  ℕ, String, Bool, true, false, not, ◌&&◌, ◌||◌, any, all, delete, update, Option, none, some, List,
  [], ◌∷◌, ◌++◌, ◌==◌, nat_eq, string_eq, pair_eq, if◌then◌else◌,
}
use rpi_io_t_server_project.Scheduler.Partitions.{Month}
use rpi_io_t_server_project.Scheduler.Partitions.Text.{month_name}

pub data ColumnType : Type 0 where
  uuid text timestamptz float integer boolean jsonb bigserial : ColumnType
  varchar : ℕ → ColumnType

-- `sa.Column(...)`; a foreign key names a table and its column.
pub record Column : Type 0 where
  pub name : String
  pub column_type : ColumnType
  pub nullable : Bool
  pub primary_key : Bool
  pub unique : Bool
  pub default : Option String
  pub references : Option (String × String)

abbrev pub optional : String → ColumnType → Column
optional name column_type = record {
  name = name;
  column_type = column_type;
  nullable = true;
  primary_key = false;
  unique = false;
  default = none;
  references = none;
}

abbrev pub required : String → ColumnType → Column
required name column_type = record (optional name column_type) { nullable = false }

-- A table: its columns, its constraints and indexes, which may have names, the name of its
-- DEFAULT partition, and its partitions by month.
pub record Table : Type 0 where
  pub name : String
  pub columns : List Column
  pub uniques : List (Option String × List String)
  pub checks : List (String × String)
  pub indexes : List (String × List String)
  pub default_partition : Option String
  pub partitions : List (Month × Month)

-- The tables, the newest first.
abbrev pub Catalog : Type 0
Catalog = List Table

pub data Ddl : Type 0 where
  create_table : Table → Ddl
  create_index : (table : String) (name : String) (columns : List String) → Ddl
  create_default : (table name : String) → Ddl
  create_partition : (table : String) (part : Month × Month) → Ddl
  drop_table drop_cascade : (table : String) → Ddl
  add_column : (table : String) (column : Column) → Ddl
  backfill : (table : String) → Ddl
  set_not_null : (table : String) (column : String) → Ddl
  create_check : (table : String) (name : String) (condition : String) → Ddl
  create_unique : (table : String) (name : String) (columns : List String) → Ddl
  drop_check drop_unique drop_column : (table : String) (name : String) → Ddl

abbrev pub exists : String → Catalog → Bool
exists name tables = any (λ (t : Table). t.name == name) tables

abbrev is_name : String → Option String → Bool
is_name name none = false
is_name name (some n) = n == name

-- Whether a table or a DEFAULT partition has the name. The name of a partition of a month is the name
-- of no table that a migration creates, and names of indexes and constraints are taken as free.
abbrev pub taken : String → Catalog → Bool
taken name tables = any (λ (t : Table). t.name == name || is_name name t.default_partition) tables

-- Whether a table has the name of the partition of a month, or is that partition.
abbrev pub taken_month : Month → Catalog → Bool
taken_month month tables =
    any
      (λ (t : Table).
        t.name == month_name month || any (λ (q : Month × Month). q.0 == month) t.partitions)
      tables

-- The table with the name becomes another.
unfoldable pub alter : String → (Table → Table) → Catalog → Catalog
alter name f [] = []
alter name f (t ∷ ts) = let rest = alter name f ts in if t.name == name then f t ∷ ts else t ∷ rest

-- The table with the name goes.
unfoldable pub remove : String → Catalog → Catalog
remove name [] = []
remove name (t ∷ ts) = let rest = remove name ts in if t.name == name then ts else t ∷ rest

abbrev pub refers : String → Option (String × String) → Bool
refers name none = false
refers name (some (table, column)) = table == name

-- Whether a column of another table has a foreign key to the table.
abbrev pub referenced : String → Catalog → Bool
referenced name tables =
    any
      (λ (t : Table).
        not (t.name == name) && any (λ (c : Column). refers name c.references) t.columns)
      tables

abbrev known : Catalog → Option (String × String) → Bool
known tables none = true
known tables (some (table, column)) = exists table tables

-- A statement about a table that must exist.
unfoldable pub altered : String → (Table → Table) → Catalog → Option Catalog
unfolding alter
altered name f tables = if exists name tables then some (alter name f tables) else none

abbrev is_named : String → Option String × List String → Bool
is_named name (none, columns) = false
is_named name (some n, columns) = n == name

-- A `drop_cascade` would also drop the foreign keys to its table; no migration makes one to
-- `telemetry`, the only table that is dropped so.
unfoldable pub apply : Ddl → Catalog → Option Catalog
unfolding altered remove
apply (create_table t) tables =
    if taken t.name tables
    then none
    else if all (λ (c : Column). known tables c.references) t.columns
    then some (t ∷ tables)
    else none
apply (create_index table name columns) tables =
    altered table (λ t. record t { indexes = t.indexes ++ (name, columns) ∷ [] }) tables
apply (create_default table name) tables =
    if taken name tables
    then none
    else altered table (λ t. record t { default_partition = some name }) tables
apply (create_partition table part) tables =
    if taken_month part.0 tables
    then some tables
    else altered table (λ t. record t { partitions = t.partitions ++ part ∷ [] }) tables
apply (drop_table table) tables =
    if exists table tables && not (referenced table tables)
    then some (remove table tables)
    else none
apply (drop_cascade table) tables = some (remove table tables)
apply (add_column table column) tables =
    altered table (λ t. record t { columns = t.columns ++ column ∷ [] }) tables
apply (backfill table) tables = if exists table tables then some tables else none
apply (set_not_null table column) tables =
    altered table
      (λ t. record t {
        columns =
            update (λ (c : Column). c.name == column) (λ c. record c { nullable = false })
              t.columns;
      })
      tables
apply (create_check table name condition) tables =
    altered table (λ t. record t { checks = t.checks ++ (name, condition) ∷ [] }) tables
apply (create_unique table name columns) tables =
    altered table (λ t. record t { uniques = t.uniques ++ (some name, columns) ∷ [] }) tables
apply (drop_check table name) tables =
    altered table (λ t. record t { checks = delete (λ c. c.0 == name) t.checks }) tables
apply (drop_unique table name) tables =
    altered table (λ t. record t { uniques = delete (is_named name) t.uniques }) tables
apply (drop_column table name) tables =
    altered table (λ t. record t { columns = delete (λ (c : Column). c.name == name) t.columns })
      tables

-- The statements of a migration, which is one transaction.
unfoldable pub apply_all : List Ddl → Catalog → Option Catalog
unfolding apply
apply_all [] tables = some tables
apply_all (d ∷ ds) tables = elim (apply d tables) [
  | none ↦ none
  | some tables' ↦ apply_all ds tables'
]
