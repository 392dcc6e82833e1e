-- ===== src/DataModel/Script.antt =====
-- What a list of operations stands for, read off the list: the tables, the indexes and the enum types
-- that it creates, found by their names, and the privileges that it grants. Nothing here models
-- PostgreSQL, which runs the list.
pub mod Agreement
pub mod Privileges
pub mod Order
pub mod Keys
pub mod Labels
use trustlist_core.Base.{
  String, Bool, true, false, ◌&&◌, Option, none, some, List, [], ◌∷◌, ◌==◌, String-eq,
  if◌then◌else◌,
}
use trustlist_core.Base.Lists.{any}
use trustlist_core.DataModel.Ddl.{
  Table, Index, EnumType, Privilege, select, insert, update, delete, Operation, create_type,
  create_table, create_index, create_unique_index, grant,
}

abbrev pub tables : List Operation → List Table
tables [] = []
tables (create_table t ∷ ops) = t ∷ tables ops
tables (_ ∷ ops) = tables ops

abbrev pub indexes : List Operation → List Index
indexes [] = []
indexes (create_index i ∷ ops) = i ∷ indexes ops
indexes (create_unique_index i ∷ ops) = i ∷ indexes ops
indexes (_ ∷ ops) = indexes ops

abbrev pub enum_types : List Operation → List EnumType
enum_types [] = []
enum_types (create_type t ∷ ops) = t ∷ enum_types ops
enum_types (_ ∷ ops) = enum_types ops

-- The first one of a list that has the name.
unfoldable pub find : {A : Type 0} → (A → String) → String → List A → Option A
find name_of n [] = none
find name_of n (x ∷ xs) = if name_of x == n then some x else find name_of n xs

abbrev pub same_privilege : Privilege → Privilege → Bool
same_privilege select p = elim p [ select ↦ true | _ ↦ false ]
same_privilege insert p = elim p [ insert ↦ true | _ ↦ false ]
same_privilege update p = elim p [ update ↦ true | _ ↦ false ]
same_privilege delete p = elim p [ delete ↦ true | _ ↦ false ]

-- The operation grants the privilege on the relation to the role.
abbrev pub grants : Privilege → String → String → Operation → Bool
grants p relation role (grant privileges r to) =
    any (same_privilege p) privileges && (r == relation) && (to == role)
grants p relation role _ = false

-- The script grants it.
abbrev pub granted : Privilege → String → String → List Operation → Bool
granted p relation role ops = any (grants p relation role) ops
