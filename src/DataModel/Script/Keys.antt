-- ===== src/DataModel/Script/Keys.antt =====
-- The foreign keys of the migration's tables: what they refer to, and the types of their columns.
use trustlist_core.Base.{String, Option, none, some, List, [], ◌∷◌, map, String-eq, ◌≡◌, refl}
use trustlist_core.Base.Lists.{All}
use trustlist_core.DataModel.Ddl.{SqlType, uuid, Column, Key, key, Table, ForeignKey}
use trustlist_core.DataModel.Migration.{upgrade}
use trustlist_core.DataModel.Migration.Enums.{enum, enum_type}
use trustlist_core.DataModel.Migration.Accounts.{user_account}
use trustlist_core.DataModel.Migration.Domains.{domain, pool, provenance}
use trustlist_core.DataModel.Script.{tables, find}

-- The types of some columns of a table, if it has them all.
abbrev cons_type : Option Column → Option (List SqlType) → Option (List SqlType)
cons_type (some c) (some types) = some (c.type ∷ types)
cons_type _ _ = none

types_of : Table → List String → Option (List SqlType)
types_of t [] = some []
types_of t (n ∷ ns) = cons_type (find Column.name n t.columns) (types_of t ns)

-- One of the keys of a table.
data IsKeyOf (t : Table) : List String → Type 0 where
  primary : IsKeyOf t t.primary_key.columns
  unique : (k : Key) → find Key.name k.name t.uniques ≡ some k → IsKeyOf t k.columns

-- A foreign key of `t`: it refers to columns of a table of the migration that are a key of that
-- table, and the columns of `t` that hold it have their types.
record Resolves (t : Table) (k : ForeignKey) : Type 0 where
  referred : Table
  target_columns : List String
  types : List SqlType
  is_created : find Table.name referred.name (tables upgrade) ≡ some referred
  refers : k.targets ≡ map (λ c. (referred.name, c)) target_columns
  is_key : IsKeyOf referred target_columns
  holds : types_of t k.columns ≡ some types
  held : types_of referred target_columns ≡ some types

module _ {t : Table} {k : ForeignKey} {types : List SqlType} (referred : Table) where
  into :
      find Table.name referred.name (tables upgrade) ≡ some referred
      → k.targets ≡ map (λ c. (referred.name, c)) referred.primary_key.columns
      → types_of t k.columns ≡ some types
      → types_of referred referred.primary_key.columns ≡ some types
      → Resolves t k
  into is_created refers holds held = record {
    referred = referred;
    target_columns = referred.primary_key.columns;
    types = types;
    is_created = is_created;
    refers = refers;
    is_key = primary;
    holds = holds;
    held = held;
  }

-- Every foreign key of every table that the migration creates refers to a key of a table that it
-- creates, column by column with the same types.
foreign_keys-Resolves : All (λ t. All (λ k. Resolves t k) t.foreign_keys) (tables upgrade)
unfolding enum_type find types_of
foreign_keys-Resolves = (
  tt,
  (
    tt,
    (
      tt,
      (
        (into domain refl refl refl refl, (into pool refl refl refl refl, tt)),
        (
          (into user_account refl refl refl refl, tt),
          (
            (into domain refl refl refl refl, (into provenance refl refl refl refl, tt)),
            (
              (
                into domain refl refl refl refl,
                (into pool refl refl refl refl, (into user_account refl refl refl refl, tt)),
              ),
              (
                (into domain refl refl refl refl, tt),
                (
                  (into domain refl refl refl refl, tt),
                  (
                    (into user_account refl refl refl refl, tt),
                    (
                      (
                        into user_account refl refl refl refl,
                        (
                          record {
                            referred = user_account;
                            target_columns = "user_id" ∷ "archetype" ∷ [];
                            types = uuid ∷ enum "user_archetype" tt ∷ [];
                            is_created = refl;
                            refers = refl;
                            is_key =
                                unique
                                  (key "uq_user_account_user_id_archetype"
                                    ("user_id" ∷ "archetype" ∷ []))
                                  refl;
                            holds = refl;
                            held = refl;
                          },
                          tt,
                        ),
                      ),
                      (
                        (into user_account refl refl refl refl, tt),
                        (
                          (into user_account refl refl refl refl, tt),
                          (
                            (into user_account refl refl refl refl, tt),
                            ((into user_account refl refl refl refl, tt), tt),
                          ),
                        ),
                      ),
                    ),
                  ),
                ),
              ),
            ),
          ),
        ),
      ),
    ),
  ),
)
