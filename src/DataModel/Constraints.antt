-- ===== src/DataModel/Constraints.antt =====
-- The column types, keys and references of a declared table, read as conditions on a new row. A null is equal to
-- nothing, and a reference with a null in it holds, as the SQL standard has it.
pub mod Statements
use trustlist_core.Base.{
  ℕ, String, Bool, true, false, not, ◌&&◌, ◌||◌, Option, none, some, List, [], ◌∷◌, map, ◌==◌,
  String-eq, ℕ-eq,
}
use trustlist_core.Base.Lists.{any, every, contains}
use trustlist_core.Base.Dict.{Dict, lookup}
use trustlist_core.Auth.Database.{Detail, ColumnTypes}
use trustlist_core.DataModel.Ddl.{
  SqlType, text, inet, jsonb, enumeration, Column, Key, ForeignKey, Table,
}

pub data Value : Type 0 where
  null : Value
  id moment : ℕ → Value
  string : String → Value
  document : List (String × Detail) → Value

abbrev pub Row : Type 0
Row = Dict String Value

abbrev pub value_in : Option Value → Value
value_in none = null
value_in (some v) = v

unfoldable pub cell : String → Row → Value
unfolding lookup
cell column row = value_in (lookup column row)

-- `v = w`, that is true
abbrev pub same_value : Value → Value → Bool
same_value (id m) (id n) = m == n
same_value (moment m) (moment n) = m == n
same_value (string s) (string t) = s == t
same_value _ _ = false

-- `v IS NULL`
abbrev pub is_null : Value → Bool
is_null null = true
is_null _ = false

-- The columns of a stored row against columns of the new one.
abbrev pub matches : List String → List String → Row → Row → Bool
matches (c ∷ cs) (d ∷ ds) stored row =
    same_value (cell c stored) (cell d row) && matches cs ds stored row
matches _ _ stored row = true

-- No stored row has the key of the new one.
abbrev pub key_is_free : List Row → Row → Key → Bool
key_is_free stored row k = not (any (λ s. matches k.columns k.columns s row) stored)

abbrev pub relation_of : List (String × String) → String
relation_of [] = ""
relation_of ((relation, target) ∷ targets) = relation

abbrev pub target_columns : List (String × String) → List String
target_columns targets = map (λ (relation, target). target) targets

abbrev pub reference_holds : (String → List Row) → Row → ForeignKey → Bool
reference_holds rows row k =
    any (λ c. is_null (cell c row)) k.columns
    || any (λ s. matches (target_columns k.targets) k.columns s row) (rows (relation_of k.targets))

-- The new row violates no key and no reference of the table.
abbrev pub admits : Table → (String → List Row) → Row → Bool
admits t rows row =
    every (key_is_free (rows t.name) row) (t.primary_key ∷ t.uniques)
    && every (reference_holds rows row) t.foreign_keys

-- A column of the type takes the value.
abbrev pub takes : ColumnTypes → SqlType → Value → Bool
takes types inet (string s) = types.is_inet s
takes types text (string s) = types.is_text s
takes types jsonb (document details) = types.is_jsonb details
takes types (enumeration name labels) (string s) = contains s labels
takes types _ _ = true

-- The columns of the table take the values of the new row.
abbrev pub converts : ColumnTypes → Table → Row → Bool
converts types t row = every (λ c. takes types c.type (cell c.name row)) t.columns
