-- ===== src/Base/Json.antt =====
-- The values that Python's `json` reads and writes. An integer is `integer n` or `negative n`, which is
-- -(n + 1); a float is its `repr`. A dict has text keys, in insertion order.
use Prim.Native.Nat.{ℕ, zero, suc}
use Prim.Native.String.{String}
use mathlib.Core.Bool.{Bool, true, false, not, ◌||◌, ◌&&◌}
use mathlib.Core.Option.{Option, none, some}
use trustlist_core.Base.Tests.{if◌then◌else◌, is_some}
use mathlib.Core.Path.{◌≡◌, refl}
use native.Mathlib.Omega.{arith}
use trustlist_core.Base.Classes.{◌==◌, ==_iff, String-eq}

mutual
  pub data Json : Type 0 where
    null : Json
    bool : Bool → Json
    integer negative : ℕ → Json
    float text : String → Json
    array : Items → Json
    object : Fields → Json

  pub data Items : Type 0 where
    no_items : Items
    item : Json → Items → Items

  pub data Fields : Type 0 where
    no_fields : Fields
    field : String → Json → Fields → Fields

-- `d.get(k)`, and `k in d`
unfoldable pub find : String → Fields → Option Json
find k no_fields = none
find k (field j v fs) = if j == k then some v else find k fs

-- No dict in the value has a key twice.
unfoldable mutual
  unfolding find

  pub has_distinct_keys : Json → Bool
  has_distinct_keys (array xs) = all_distinct xs
  has_distinct_keys (object fs) = fields_distinct fs
  has_distinct_keys _ = true

  pub all_distinct : Items → Bool
  all_distinct no_items = true
  all_distinct (item x xs) = has_distinct_keys x && all_distinct xs

  pub fields_distinct : Fields → Bool
  fields_distinct no_fields = true
  fields_distinct (field k v fs) =
      not (is_some (find k fs)) && (has_distinct_keys v && fields_distinct fs)

-- `bool(x)`
unfoldable pub is_truthy : Json → Bool
is_truthy null = false
is_truthy (bool b) = b
is_truthy (integer zero) = false
is_truthy (integer (suc n)) = true
is_truthy (negative n) = true
is_truthy (float repr) = not ((repr == "0.0") || (repr == "-0.0"))
is_truthy (text s) = not (s == "")
is_truthy (array no_items) = false
is_truthy (array (item x xs)) = true
is_truthy (object no_fields) = false
is_truthy (object (field k v fs)) = true

-- `d[k] = v`
unfoldable pub put : String → Json → Fields → Fields
put k v no_fields = field k v no_fields
put k v (field j w fs) = if j == k then field j v fs else field j w (put k v fs)

-- `d.update(others)`
unfoldable pub update_fields : Fields → Fields → Fields
unfolding put
update_fields fs no_fields = fs
update_fields fs (field k v others) = update_fields (put k v fs) others

-- `d.pop(k, None)`, on what stays in the dict
unfoldable pub drop_field : String → Fields → Fields
drop_field k no_fields = no_fields
drop_field k (field j v fs) = let rest = drop_field k fs in if j == k then rest else field j v rest

-- A read after a write.
pub find-put :
    (k j : String) (v : Json) (fs : Fields)
    → find j (put k v fs) ≡ (if k == j then some v else find j fs)
unfolding find put
find-put k j v no_fields = refl
find-put k j v (field i w fs) =
    ground (arith, ==_iff k j, ==_iff i k, ==_iff i j, find-put k j v fs)

-- An update leaves the keys alone that it does not have.
pub find-update_fields :
    (k : String) (fs others : Fields)
    → find k others ≡ none
    → find k (update_fields fs others) ≡ find k fs
unfolding find update_fields
find-update_fields k fs no_fields other = refl
find-update_fields k fs (field j v others) other =
    ground (arith, other, find-put j k v fs, find-update_fields k (put j v fs) others, ==_iff j k)
