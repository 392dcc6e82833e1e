-- ===== src/DataModel/Script/Order.antt =====
-- The order of the migration's operations, by what each of them needs and creates. A primary
-- key and a unique constraint make an index of their name, so these names are created as well.
use trustlist_core.Base.{
  String, Bool, true, false, not, ◌&&◌, List, [], ◌∷◌, ◌++◌, map, String-eq, ◌≡◌, refl, arith,
  subst, sym,
}
use mathlib.Core.List.{append-nil, append_assoc}
use trustlist_core.Base.Lists.{any, join, contains, contains_all}
use trustlist_core.DataModel.Ddl.{
  enumeration, Column, Operation, create_type, create_table, create_index, create_unique_index,
  create_view, refresh_view, create_role, grant,
}
use trustlist_core.DataModel.Migration.{upgrade}
use trustlist_core.DataModel.Migration.Enums.{enum_type}

abbrev pub type_names : List Column → List String
type_names [] = []
type_names (c ∷ cs) = elim c.type [
  | enumeration name labels ↦ name ∷ type_names cs
  | _ ↦ type_names cs
]

-- What an operation creates.
abbrev pub creates : Operation → List String
creates (create_type t) = t.name ∷ []
creates (create_table t) = t.name ∷ map (λ k. k.name) (t.primary_key ∷ t.uniques)
creates (create_index i) = i.name ∷ []
creates (create_unique_index i) = i.name ∷ []
creates (create_view v) = v.name ∷ []
creates (refresh_view name) = []
creates (create_role name) = name ∷ []
creates (grant privileges relation role) = []

-- What it needs: the types of the columns, the tables that the foreign keys refer to, the relation.
abbrev pub needs : Operation → List String
needs (create_type t) = []
needs (create_table t) =
    type_names t.columns
    ++ join (map (λ k. map (λ (relation, target). relation) k.targets) t.foreign_keys)
needs (create_index i) = i.relation ∷ []
needs (create_unique_index i) = i.relation ∷ []
needs (create_view v) = v.source ∷ []
needs (refresh_view name) = name ∷ []
needs (create_role name) = []
needs (grant privileges relation role) = relation ∷ role ∷ []

abbrev pub created : List Operation → List String
created ops = join (map creates ops)

-- The test of the operations that follow, after some names have been created.
well_ordered : List String → List Operation → Bool
well_ordered seen [] = true
well_ordered seen (op ∷ ops) =
    contains_all seen (needs op)
    && not (any (λ n. contains n seen) (creates op))
    && well_ordered (seen ++ creates op) ops

-- An operation at its place: everything that it needs is there, and nothing that it creates.
abbrev pub IsInOrder : List String → Operation → Type 0
IsInOrder seen op =
    (contains_all seen (needs op) ≡ true) × (any (λ n. contains n seen) (creates op) ≡ false)

in_order :
    (seen : List String) (before after : List Operation) (op : Operation)
    → well_ordered seen (before ++ op ∷ after) ≡ true
    → IsInOrder (seen ++ created before) op
unfolding well_ordered
in_order seen [] after op tested =
    subst (λ names. IsInOrder names op) (sym (append-nil seen))
      (ground (arith, tested), ground (arith, tested))
in_order seen (b ∷ before) after op tested =
    subst (λ names. IsInOrder names op) (append_assoc seen (creates b) (created before))
      (in_order (seen ++ creates b) before after op (ground (arith, tested)))

-- Wherever the migration is cut before one of its operations, the operations before the cut have
-- created every type, relation and role that the operation needs, and none of the names that the
-- operation creates.
pub upgrade-IsInOrder :
    (before after : List Operation) (op : Operation)
    → upgrade ≡ before ++ op ∷ after
    → IsInOrder (created before) op
unfolding enum_type well_ordered
upgrade-IsInOrder before after op cut =
    in_order [] before after op (subst (λ ops. well_ordered [] ops ≡ true) cut refl)
