-- ===== src/DataModel/Script/Agreement.antt =====
-- The migration against the models: tables, indexes and enum types by their names, whatever their
-- places in the two files.
use trustlist_core.Base.{
  true, String, some, List, [], ◌∷◌, ◌++◌, map, String-eq, ==_iff, ◌==◌, ◌≡◌, refl, sym, ◌∙◌, arith,
  Option-cases, Bool-cases, inl, inr,
}
use trustlist_core.DataModel.Ddl.{check, Table, Index, EnumType, SqlType, enumeration}
use trustlist_core.DataModel.Models.{metadata}
use trustlist_core.DataModel.Models.Declaration.{
  Model, MappedColumn, ck_name, mapped, mapped_indexes,
}
use trustlist_core.DataModel.Migration.{upgrade}
use trustlist_core.DataModel.Migration.Enums.{enum_type}
use trustlist_core.DataModel.Script.{tables, indexes, enum_types, find}

module _ {A : Type 0} (name_of : A → String) where
  -- Each member of a list is what its name finds in the other one.
  abbrev Covers : List A → List A → Type 0
  Covers ys xs = map (λ x. find name_of (name_of x) ys) xs ≡ map some xs

  head_of : A → List A → A
  head_of x [] = x
  head_of x (y ∷ ys) = y

  covered :
      (n : String) (x : A) (xs ys : List A)
      → Covers ys xs
      → find name_of n xs ≡ some x
      → find name_of n ys ≡ some x
  unfolding find
  covered n x [] ys covers h = cc
  covered n x (z ∷ xs) ys covers h = elim (Bool-cases (name_of z == n)) [
    | inl same ↦ ground (arith, same, h, covers, ==_iff (name_of z) n)
    | inr other ↦ covered n x xs ys (cc) (ground (arith, other, h))
  ]

  find_agrees :
      (n : String) (xs ys : List A)
      → Covers ys xs
      → Covers xs ys
      → find name_of n xs ≡ find name_of n ys
  find_agrees n xs ys there back = elim (Option-cases (find name_of n xs)) [
    | inr (x, found) ↦ found ∙ sym (covered n x xs ys there found)
    | inl missing ↦ elim (Option-cases (find name_of n ys)) [
      | inl missing_too ↦ missing ∙ sym missing_too
      | inr (y, found) ↦ covered n y ys xs back found ∙ sym found
    ]
  ]

-- The indexes that the models declare.
abbrev pub declared_indexes : List Model → List Index
declared_indexes [] = []
declared_indexes (m ∷ ms) = mapped_indexes m ++ declared_indexes ms

-- The enum types of the models' columns, once for each column.
abbrev enum_of : SqlType → List EnumType → List EnumType
enum_of (enumeration name labels) rest = record { name = name; labels = labels } ∷ rest
enum_of _ rest = rest

abbrev column_enums : List MappedColumn → List EnumType → List EnumType
column_enums [] rest = rest
column_enums (c ∷ cs) rest = enum_of c.type (column_enums cs rest)

abbrev pub declared_enums : List Model → List EnumType
declared_enums [] = []
declared_enums (m ∷ ms) = column_enums m.columns (declared_enums ms)

-- The tables of the models with the naming convention applied to the names of the checks once more.
abbrev pub twice_named : Table → Table
twice_named t = record t { checks = map (λ c. check (ck_name t.name c.name) c.condition) t.checks }

abbrev pub twice_named_tables : List Table
twice_named_tables = map (λ m. twice_named (mapped m)) metadata

-- The index of the materialised view, for which there is no model.
abbrev pub view_index : Index
view_index = record {
  name = "ux_evidence_current_natural_key";
  relation = "evidence_current";
  columns = "domain_id" ∷ "signal_class" ∷ "source_url" ∷ [];
  unique = true;
}

tables_agree :
    (n : String) → find Table.name n (tables upgrade) ≡ find Table.name n twice_named_tables
unfolding enum_type find
tables_agree n = find_agrees Table.name n (tables upgrade) twice_named_tables refl refl

indexes_agree :
    (n : String)
    → find Index.name n (indexes upgrade)
      ≡ find Index.name n (view_index ∷ declared_indexes metadata)
unfolding find
indexes_agree n =
    find_agrees Index.name n (indexes upgrade) (view_index ∷ declared_indexes metadata) refl refl

enums_agree :
    (n : String)
    → find EnumType.name n (enum_types upgrade) ≡ find EnumType.name n (declared_enums metadata)
unfolding find
enums_agree n = find_agrees EnumType.name n (enum_types upgrade) (declared_enums metadata) refl refl

-- For every name, the migration creates a table or an enum type of that name exactly when the models
-- declare one, and an index exactly when the models declare one or it is the unique index of the view
-- `evidence_current` on its natural key. A table has what its model declares, that is the columns with
-- their types, defaults and nullability in the same order, the keys and foreign keys under the models'
-- names, and the same checks; but the name of a check has the prefix of the naming convention twice,
-- before names of more than 63 characters are shortened.
pub upgrade_lem :
    (n : String)
    → (find Table.name n (tables upgrade) ≡ find Table.name n twice_named_tables)
      × (find Index.name n (indexes upgrade)
          ≡ find Index.name n (view_index ∷ declared_indexes metadata))
      × (find EnumType.name n (enum_types upgrade) ≡ find EnumType.name n (declared_enums metadata))
upgrade_lem n = (tables_agree n, indexes_agree n, enums_agree n)
