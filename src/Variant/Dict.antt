-- ===== src/Variant/Dict.antt =====
-- src/variant.c: looking up and changing the entries of a dictionary. Keys are quarks, which are equal
-- exactly if their texts are. A value that is not a dictionary has no entries.
pub mod Lookup
pub mod Added
mod Tests
use mathlib.Core.Option
use libtransmission.Prelude.{
  ℕ, zero, suc, ◌+◌, Bool, true, false, ◌&&◌, ◌||◌, List, [], ◌∷◌, Option, none, some,
  if◌then◌else◌, ◌==◌,
}
use libtransmission.Variant.{
  ℤ, pos, negsuc, Variant, int, bool, real, str, items, dict, Items, nil, cons, Entries, end, entry,
  dict_add,
}

-- The values of the type field.
pub type_of : Variant → ℕ
type_of (int n) = 1
type_of (str s) = 2
type_of (items xs) = 4
type_of (dict es) = 8
type_of (bool b) = 16
type_of (real t) = 32

pub is_type : Option Variant → ℕ → Bool
is_type none type = false
is_type (some v) type = type_of v == type

unfoldable pub same_key : List ℕ → List ℕ → Bool
same_key [] [] = true
same_key [] (y ∷ ys) = false
same_key (x ∷ xs) [] = false
same_key (x ∷ xs) (y ∷ ys) = (x == y) && same_key xs ys

-- `dictIndexOf`
unfoldable pub dict_index_of : Entries → List ℕ → Option ℕ
dict_index_of end k = none
dict_index_of (entry j x es) k =
    if same_key j k then some 0 else Option.map suc (dict_index_of es k)

unfoldable pub value_at : Entries → ℕ → Option Variant
value_at end i = none
value_at (entry k x es) zero = some x
value_at (entry k x es) (suc i) = value_at es i

pub set_value_at : Entries → ℕ → Variant → Entries
set_value_at end i v = end
set_value_at (entry k x es) zero v = entry k v es
set_value_at (entry k x es) (suc i) v = entry k x (set_value_at es i v)

pub dict_size : Entries → ℕ
dict_size end = 0
dict_size (entry k x es) = suc (dict_size es)

-- `tr_variantDictFind`
unfoldable pub dict_find : Entries → List ℕ → Option Variant
dict_find es k = elim (dict_index_of es k) [ none ↦ none | some i ↦ value_at es i ]

pub bring_front : List ℕ → Variant → Entries → Entries
bring_front k x end = entry k x end
bring_front k x (entry j y es) = entry j y (entry k x es)

-- The last entry before the others.
pub move_last : Entries → Entries
move_last end = end
move_last (entry k x es) = bring_front k x (move_last es)

-- The entry of the index is replaced by the last one, or dropped when it is the last.
pub replace_by_last : Entries → ℕ → Entries
replace_by_last end i = end
replace_by_last (entry k x es) zero = move_last es
replace_by_last (entry k x es) (suc i) = entry k x (replace_by_last es i)

-- `tr_variantDictRemove`
pub dict_remove : Entries → List ℕ → Entries × Bool
dict_remove es k = elim (dict_index_of es k) [
  | none ↦ (es, false)
  | some i ↦ (replace_by_last es i, true)
]

-- `dictFindOrAdd`: the entries, and the index of the child.
pub find_or_add : Entries → List ℕ → ℕ → Entries × ℕ
find_or_add es k type = elim (dict_index_of es k) [
  | none ↦ (dict_add es k (int (pos 0)), dict_size es)
  | some i ↦
      let removed = (dict_remove es k).0 in
      let cleared = if type == 2 then set_value_at es i (str []) else es in
      if is_type (value_at es i) type
      then (cleared, i)
      else (dict_add removed k (int (pos 0)), dict_size removed)
]

-- `tr_variantDictAddInt`, `tr_variantDictAddBool`, `tr_variantDictAddReal`, `tr_variantDictAddRaw`, by
-- the value that they store.
pub dict_add_scalar : Entries → List ℕ → Variant → Entries
dict_add_scalar es k v = let (es', i) = find_or_add es k (type_of v) in set_value_at es' i v

-- `tr_variantGetInt`
unfoldable pub get_int : Option Variant → Option ℤ
get_int (some (int n)) = some n
get_int (some (bool b)) = some (if b then pos 1 else pos 0)
get_int _ = none

-- `tr_variantGetStr`
pub get_str : Option Variant → Option (List ℕ)
get_str (some (str s)) = some s
get_str _ = none

-- `tr_variantDictFindInt`
unfoldable pub dict_find_int : Variant → List ℕ → Option ℤ
dict_find_int (dict es) k = get_int (dict_find es k)
dict_find_int _ k = none

-- `tr_variantDictFindList`
unfoldable pub dict_find_list : Variant → List ℕ → Option Items
dict_find_list (dict es) k = elim (dict_find es k) as (λ _. Option Items) [
  | some (items xs) ↦ some xs
  | _ ↦ none
]
dict_find_list _ k = none
