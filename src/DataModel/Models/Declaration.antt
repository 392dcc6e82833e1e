-- ===== src/DataModel/Models/Declaration.antt =====
-- data-model/trustlist_data_model/models.py: the declarative form of a table, the helpers of its
-- columns, and the naming convention that the metadata carries. `mapped` is the table that a
-- declaration stands for, as SQLAlchemy documents it: a primary key's column is not null unless it
-- says otherwise, and a constraint without a full name gets one by the convention.
use trustlist_core.Base.{
  String, Bool, true, false, not, Option, none, some, List, [], ◌∷◌, ◌++◌, map,
}
use trustlist_core.Base.Lists.{keep}
use Prim.Native.String.{◌++◌ as ◌<>◌}
use trustlist_core.DataModel.Ddl.{
  SqlType, uuid, timestamptz, Column, Key, Check, ForeignKey, Table, Index, column, key, check,
  foreign_key, index_on,
}

-- `mapped_column(type, ForeignKey(reference), primary_key, nullable, server_default)`
pub record MappedColumn : Type 0 where
  pub name : String
  pub type : SqlType
  pub reference : Option (String × String)
  pub primary_key : Bool
  pub nullable : Option Bool
  pub server_default : Option String

pub record Model : Type 0 where
  pub tablename : String
  pub columns : List MappedColumn
  pub uniques : List Key
  pub checks : List Check
  pub foreign_keys : List ForeignKey
  pub indexes : List Key

abbrev pub mapped_column :
    String → SqlType → Option (String × String) → Bool → Option Bool → Option String → MappedColumn
mapped_column name type reference primary_key nullable server_default = record {
  name = name;
  type = type;
  reference = reference;
  primary_key = primary_key;
  nullable = nullable;
  server_default = server_default;
}

abbrev pub uuid_pk : String → MappedColumn
uuid_pk name = mapped_column name uuid none true none (some "gen_random_uuid()")

abbrev pub created_at : String → MappedColumn
created_at name = mapped_column name timestamptz none false (some false) (some "now()")

abbrev pub updated_at : String → MappedColumn
updated_at name = mapped_column name timestamptz none false (some false) (some "now()")

-- `NAMING_CONVENTION["pk"]`: "pk_%(table_name)s"
abbrev pub pk_name : String → String
pk_name table_name = "pk_" <> table_name

-- `NAMING_CONVENTION["ck"]`: "ck_%(table_name)s_%(constraint_name)s"
abbrev pub ck_name : String → String → String
ck_name table_name constraint_name = "ck_" <> (table_name <> ("_" <> constraint_name))

-- `NAMING_CONVENTION["fk"]`: "fk_%(table_name)s_%(column_0_name)s_%(referred_table_name)s"
abbrev pub fk_name : String → String → String → String
fk_name table_name column_0_name referred_table_name =
    "fk_" <> (table_name <> ("_" <> (column_0_name <> ("_" <> referred_table_name))))

abbrev pub nullable_of : Option Bool → Bool → Bool
nullable_of none primary_key = not primary_key
nullable_of (some nullable) primary_key = nullable

abbrev pub mapped_columns : List MappedColumn → List Column
mapped_columns [] = []
mapped_columns (c ∷ cs) =
    column c.name c.type c.server_default (nullable_of c.nullable c.primary_key) ∷ mapped_columns cs

abbrev pub key_columns : List MappedColumn → List String
key_columns cs = map (λ c. c.name) (keep (λ c. c.primary_key) cs)

abbrev pub reference_keys : String → String → Option (String × String) → List ForeignKey
reference_keys table_name name none = []
reference_keys table_name name (some (referred_table, target)) =
    foreign_key (fk_name table_name name referred_table) (name ∷ []) ((referred_table, target) ∷ [])
    ∷ []

-- The foreign keys of the columns, in the columns' order.
abbrev pub column_keys : String → List MappedColumn → List ForeignKey
column_keys table_name [] = []
column_keys table_name (c ∷ cs) =
    reference_keys table_name c.name c.reference ++ column_keys table_name cs

-- The table that a model declares.
abbrev pub mapped : Model → Table
mapped m = record {
  name = m.tablename;
  columns = mapped_columns m.columns;
  primary_key = key (pk_name m.tablename) (key_columns m.columns);
  uniques = m.uniques;
  checks = map (λ c. check (ck_name m.tablename c.name) c.condition) m.checks;
  foreign_keys = column_keys m.tablename m.columns ++ m.foreign_keys;
}

abbrev pub mapped_indexes : Model → List Index
mapped_indexes m = map (λ i. index_on i.name m.tablename i.columns) m.indexes
