-- ===== src/DataModel/Ddl.antt =====
-- The schema language that data-model/trustlist_data_model/models.py and the migration under
-- data-model/migrations/versions share: column types, constraints, tables, and the operations of a
-- migration script. A server default, a CHECK and an index expression are SQL text.
use trustlist_core.Base.{ℕ, String, Bool, true, false, Option, List}

pub data SqlType : Type 0 where
  uuid text timestamptz bytea jsonb inet boolean : SqlType
  varchar : ℕ → SqlType
  numeric : ℕ → ℕ → SqlType
  enumeration : String → List String → SqlType

pub record Column : Type 0 where
  pub name : String
  pub type : SqlType
  pub server_default : Option String
  pub nullable : Bool

-- A primary key, a unique constraint, or an index of a table that is known from the context.
pub record Key : Type 0 where
  pub name : String
  pub columns : List String

pub record Check : Type 0 where
  pub name : String
  pub condition : String

-- The target "domain.domain_id" is the pair of the table and the column.
pub record ForeignKey : Type 0 where
  pub name : String
  pub columns : List String
  pub targets : List (String × String)

pub record Table : Type 0 where
  pub name : String
  pub columns : List Column
  pub primary_key : Key
  pub uniques : List Key
  pub checks : List Check
  pub foreign_keys : List ForeignKey

pub record Index : Type 0 where
  pub name : String
  pub relation : String
  pub columns : List String
  pub unique : Bool

pub record EnumType : Type 0 where
  pub name : String
  pub labels : List String

-- `CREATE MATERIALIZED VIEW name AS SELECT DISTINCT ON (distinct) columns FROM source ORDER BY order`
pub record View : Type 0 where
  pub name : String
  pub distinct : List String
  pub columns : List String
  pub source : String
  pub order : List String

pub data Privilege : Type 0 where
  select insert update delete : Privilege

pub data Operation : Type 0 where
  create_type : EnumType → Operation
  create_table : Table → Operation
  create_index create_unique_index : Index → Operation
  create_view : View → Operation
  refresh_view : String → Operation
  create_role : String → Operation
  grant : List Privilege → String → String → Operation

abbrev pub column : String → SqlType → Option String → Bool → Column
column name type server_default nullable = record {
  name = name;
  type = type;
  server_default = server_default;
  nullable = nullable;
}

abbrev pub key : String → List String → Key
key name columns = record { name = name; columns = columns }

abbrev pub check : String → String → Check
check name condition = record { name = name; condition = condition }

abbrev pub foreign_key : String → List String → List (String × String) → ForeignKey
foreign_key name columns targets = record { name = name; columns = columns; targets = targets }

abbrev pub index_on : String → String → List String → Index
index_on name relation columns = record {
  name = name;
  relation = relation;
  columns = columns;
  unique = false;
}

abbrev pub unique_index_on : String → String → List String → Index
unique_index_on name relation columns = record {
  name = name;
  relation = relation;
  columns = columns;
  unique = true;
}
